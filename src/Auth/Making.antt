-- ===== src/Auth/Making.antt =====
-- What Login of system/internal/logic/user.go has made when it has signed a user in.
use ai_dandelion.Base.{
  ℕ, suc, ◌<◌, ◌≤◌, String, ◌≡◌, ap, sym, ◌∙◌, subst, true, false, some, List, [], any, find_first,
  is_empty, trim_space, arith,
}
use ai_dandelion.Db.{ok, World, first, query, ticked}
use ai_dandelion.Db.Rules.{bind_ok}
use ai_dandelion.Auth.Model.{User, Role, Tables, Effect, user_status_enabled}
use ai_dandelion.Auth.Token.{Library, Claims, claims_for, sign_access_token}
use ai_dandelion.Auth.Store.{create_session}
use ai_dandelion.Auth.Account.{
  get_by_username, has_username, roles_of, role_ids_of, role_enabled, user_to_proto,
}
use ai_dandelion.Auth.Session.{
  UserLogic, Fresh, AuthResult, min_duration, login, login_as, sign_in, authenticate,
  issue_new_session_tokens, issue_new, keep_new, save_new, sign,
}
use ai_dandelion.Auth.Issuing.{
  stored, new_session, authenticate_ok, keep_new_ok, issue_new_session_ok, sign_in_same,
  login_parts,
}

module _ (l : Library) (u : UserLogic) (clock : ℕ → ℕ) where
  abbrev pub new_claims : User → Fresh → ℕ → ℕ → Claims
  new_claims user f ttl now =
      claims_for l (record { id = user.id; username = user.username; role_ids = [] }) f.session_id
        ttl f.token_id now

  sign_signed :
      (user : User) (ttl : ℕ) (f : Fresh) (w : World Tables Effect) {p : String × String}
      → (sign l u clock user f.session_id ttl f w).0 ≡ ok p
      → (l.jwt_sign (trim_space u.secret) (new_claims user f ttl (clock w.calls)) ≡ ok p.0)
        × (p.1 ≡ f.token_id)
        × (is_empty (trim_space u.secret) ≡ false)
        × (is_empty (trim_space user.id) ≡ false)
        × ((sign l u clock user f.session_id ttl f w).1.tables ≡ w.tables)
        × ((sign l u clock user f.session_id ttl f w).1.calls ≡ suc w.calls)
  unfolding sign sign_access_token query
  sign_signed user ttl f w h = ground arith

  save_new_needs :
      (user : User) (jti refresh : String) (ttl : ℕ) (f : Fresh) (w : World Tables Effect)
      → (save_new l u clock user jti refresh ttl f w).0 ≡ ok tt
      → (u.has_redis ≡ true)
        × (is_empty (trim_space f.session_id) ≡ false)
        × (is_empty (trim_space user.id) ≡ false)
  unfolding save_new create_session
  save_new_needs user jti refresh ttl f w h = ground arith

  keep_new_needs :
      (ttl : ℕ) (user : User) (roles : List Role) (f : Fresh) (signed : String × String)
      (w : World Tables Effect) {a : AuthResult}
      → (keep_new l u clock ttl user roles f signed w).0 ≡ ok a
      → (u.has_redis ≡ true) × (is_empty (trim_space f.session_id) ≡ false)
  unfolding keep_new query
  keep_new_needs ttl user roles f signed w h =
      ground (arith, save_new_needs user signed.1 f.refresh_token ttl f (ticked w))

  issue_new_session_needs :
      (user : User) (roles : List Role) (f : Fresh) (w : World Tables Effect) {a : AuthResult}
      → (issue_new_session_tokens l u clock user roles f w).0 ≡ ok a
      → (u.has_store ≡ true) × (0 < u.refresh_token_ttl)
  unfolding issue_new_session_tokens
  issue_new_session_needs user roles f w h = ground arith

  authenticate_calls :
      (name password : String) (w : World Tables Effect)
      → w.calls ≤ (authenticate l u clock name password w).1.calls
  unfolding authenticate get_by_username first
  authenticate_calls name password w = ground arith

  unfoldable pub shorter : ℕ
  shorter = min_duration u.access_token_ttl u.refresh_token_ttl

  pub shorter_lem : 0 < u.refresh_token_ttl → (0 < shorter) × (shorter ≤ u.refresh_token_ttl)
  unfolding shorter min_duration
  shorter_lem h = ground arith

  -- What Login has made: a token of a user, signed at some time, and the tables at a later one.
  pub record Made (f : Fresh) (a : AuthResult) (w : World Tables Effect) (after : Tables)
      : Type 0 where
    pub name : String
    pub user : User
    pub signed_at : ℕ
    pub stored_at : ℕ
    pub known : find_first (has_username name) w.tables.users ≡ some user
    pub enabled : user.status ≡ user_status_enabled
    pub has_role : any role_enabled (roles_of user.id w.tables) ≡ true
    pub secret_full : is_empty (trim_space u.secret) ≡ false
    pub id_full : is_empty (trim_space user.id) ≡ false
    pub session_full : is_empty (trim_space f.session_id) ≡ false
    pub store : u.has_store ≡ true
    pub redis : u.has_redis ≡ true
    pub lives : 0 < u.refresh_token_ttl
    pub in_order : (clock w.calls ≤ signed_at) × (clock w.calls ≤ stored_at)
    pub token :
        l.jwt_sign (trim_space u.secret) (new_claims user f shorter signed_at) ≡ ok a.access_token
    pub same_roles : a.roles ≡ roles_of user.id w.tables
    pub same_user : a.user ≡ user_to_proto user (role_ids_of (roles_of user.id w.tables))
    pub tables :
        after
        ≡ stored l
            (new_session l u clock user f stored_at)
            f.token_id
            f.refresh_token
            shorter
            u.refresh_token_ttl
            stored_at
            w.tables

  issued :
      (user : User) (roles : List Role) (f : Fresh) (w : World Tables Effect) {a : AuthResult}
      → (issue_new_session_tokens l u clock user roles f w).0 ≡ ok a
      → (l.jwt_sign (trim_space u.secret) (new_claims user f shorter (clock w.calls))
          ≡ ok a.access_token)
        × (is_empty (trim_space u.secret) ≡ false)
        × (is_empty (trim_space user.id) ≡ false)
        × (is_empty (trim_space f.session_id) ≡ false)
        × (u.has_redis ≡ true)
        × (a.roles ≡ roles)
        × (a.user ≡ user_to_proto user (role_ids_of roles))
        × ((issue_new_session_tokens l u clock user roles f w).1.tables
            ≡ stored l
                (new_session l u clock user f (clock (suc (suc w.calls))))
                f.token_id
                f.refresh_token
                shorter
                u.refresh_token_ttl
                (clock (suc (suc w.calls)))
                w.tables)
  unfolding issue_new shorter
  issued user roles f w {a} h =
      let ttl = min_duration u.access_token_ttl u.refresh_token_ttl in
      let e = issue_new_session_ok l u clock user roles f w h in
      let w1 = (sign l u clock user f.session_id ttl f w).1 in
      let (pair, made, e') =
        bind_ok (keep_new l u clock ttl user roles f) (sign l u clock user f.session_id ttl f) w
          (subst (λ p. p.0 ≡ ok a) e h) in
      let (token, jti, secret, named, same, one) = sign_signed user ttl f w made in
      let kept = subst (λ p. p.0 ≡ ok a) (e ∙ e') h in
      let ((_, access, rs, us), tables) = keep_new_ok l u clock ttl user roles f pair w1 kept in
      let (redis, full) = keep_new_needs ttl user roles f pair w1 kept in
      let put_at = λ (j : String) (n : ℕ) (t : Tables).
        stored l (new_session l u clock user f (clock (suc n))) j f.refresh_token ttl
          u.refresh_token_ttl (clock (suc n)) t in
      (
        token ∙ ap ok (sym access),
        secret,
        named,
        full,
        redis,
        rs,
        us,
        ap (λ p. p.1.tables) (e ∙ e')
            ∙ tables
            ∙ ap (λ j. put_at j w1.calls w1.tables) jti
            ∙ ap (λ n. put_at f.token_id n w1.tables) one
            ∙ ap (λ t. put_at f.token_id (suc w.calls) t) same,
      )

  pub login-Made :
      (raw_name raw_password : String) (f : Fresh) (w : World Tables Effect) {a : AuthResult}
      → ((i j : ℕ) → i ≤ j → clock i ≤ clock j)
      → (login l u clock raw_name raw_password f w).0 ≡ ok a
      → Made f a w (login l u clock raw_name raw_password f w).1.tables
  unfolding login_as
  login-Made raw_name raw_password f w {a} later h =
      let (name, password, _, _, e) = login_parts l u clock raw_name raw_password f w h in
      let (user, known, e') =
        bind_ok (sign_in l u clock f) (authenticate l u clock name password) w
          (subst (λ p. p.0 ≡ ok a) e h) in
      let (row, enabled, _, same) = authenticate_ok l u clock name password w known in
      let w1 = (authenticate l u clock name password w).1 in
      let calls = authenticate_calls name password w in
      let (admitted, e2) = sign_in_same l u clock user f w1 (subst (λ p. p.0 ≡ ok a) (e ∙ e') h) in
      let roles = roles_of user.id w1.tables in
      let given = subst (λ p. p.0 ≡ ok a) (e ∙ e' ∙ e2) h in
      let (store, lives) = issue_new_session_needs user roles f (ticked w1) given in
      let (token, secret, named, full, redis, rs, us, tables) =
        issued user roles f (ticked w1) given in
      record {
        name = name;
        user = user;
        signed_at = clock (suc w1.calls);
        stored_at = clock (suc (suc (suc w1.calls)));
        known = row;
        enabled = enabled;
        has_role = subst (λ t. any role_enabled (roles_of user.id t) ≡ true) same admitted;
        secret_full = secret;
        id_full = named;
        session_full = full;
        store = store;
        redis = redis;
        lives = lives;
        in_order = (
          later w.calls (suc w1.calls) (omega arith),
          later w.calls (suc (suc (suc w1.calls))) (omega arith),
        );
        token = token;
        same_roles = rs ∙ ap (roles_of user.id) same;
        same_user = us ∙ ap (λ t. user_to_proto user (role_ids_of (roles_of user.id t))) same;
        tables =
            ap (λ p. p.1.tables) (e ∙ e' ∙ e2)
            ∙ tables
            ∙ ap
                (λ t.
                  stored l (new_session l u clock user f (clock (suc (suc (suc w1.calls)))))
                    f.token_id f.refresh_token shorter u.refresh_token_ttl
                    (clock (suc (suc (suc w1.calls)))) t)
                same;
      }
