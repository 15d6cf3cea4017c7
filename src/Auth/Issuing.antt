-- ===== src/Auth/Issuing.antt =====
-- What Login of system/internal/logic/user.go leaves in Redis, and what a failed
-- CreateSession of system/internal/dao/auth_token.go does not leave there.
use ai_dandelion.Base.{
  ℕ, suc, ◌+◌, ◌/◌, String, ◌≡◌, ◌⊎◌, ◌∙◌, subst, sym, Bool, true, none, some, List, eq_iff, arith,
  trim_space, find_first, any,
}
use ai_dandelion.Db.{ticked, ok, err, World, Err, exec, first, query}
use ai_dandelion.Db.Rules.{bind_ok}
use ai_dandelion.Auth.Model.{
  User, Role, AuthTokenSession, Tables, put, Effect, second, user_status_enabled,
}
use ai_dandelion.Auth.Token.{Library, hash_token, sign_access_token}
use ai_dandelion.Auth.Store.{
  create_session, set_session, set_access, set_refresh, delete_session, delete_session_and_access,
}
use ai_dandelion.Auth.Account.{
  get_by_username, has_username, list_user_roles, roles_of, has_enabled_roles, role_ids_of,
  role_enabled, user_to_proto, validate_username, validate_password,
}
use ai_dandelion.Auth.Session.{
  UserLogic, Fresh, AuthResult, min_duration, login, login_as, sign_in, authenticate,
  issue_new_session_tokens, issue_new, keep_new, save_new, sign,
}

-- The tables with one more session, and an access token and a refresh token that name it.
abbrev pub stored : Library → AuthTokenSession → String → String → ℕ → ℕ → ℕ → Tables → Tables
stored l s jti token a r now t = record t {
  sessions = put (trim_space s.id) (record { value = s; expires = now + r }) t.sessions;
  accesses = put (hash_token l jti) (record { value = s.id; expires = now + a }) t.accesses;
  refreshes = put (hash_token l token) (record { value = s.id; expires = now + r }) t.refreshes;
}

module _ (l : Library) (available : Bool) (s : AuthTokenSession) (jti token : String)
    (a r now : ℕ) where
  pub create_session_ok :
      (w : World Tables Effect)
      → (create_session l available s jti token a r now w).0 ≡ ok tt
      → (create_session l available s jti token a r now w).1.tables
        ≡ stored l s jti token a r now w.tables
  unfolding create_session set_session set_access set_refresh delete_session
      delete_session_and_access exec
  create_session_ok w h = ground arith

  -- A CreateSession that returns an error has written no refresh token, whatever failed; and if no
  -- two calls in a row failed, it left no session under the id, or changed nothing at all.
  pub create_session_err :
      (w : World Tables Effect) {e : Err}
      → (create_session l available s jti token a r now w).0 ≡ err e
      → ((create_session l available s jti token a r now w).1.tables.refreshes ≡ w.tables.refreshes)
        × (((n : ℕ) → (w.faults n ≡ none) ⊎ (w.faults (suc n) ≡ none))
            → ((create_session l available s jti token a r now w).1.tables ≡ w.tables)
              ⊎ ((create_session l available s jti token a r now w).1.tables.sessions
                    (trim_space s.id)
                  ≡ none))
  unfolding create_session set_session set_access set_refresh delete_session
      delete_session_and_access exec
  create_session_err w h = (
    ground arith,
    λ alternate. ground (
      arith,
      alternate (suc w.calls),
      alternate (suc (suc w.calls)),
      eq_iff (trim_space s.id) (trim_space s.id),
    ),
  )

module _ (l : Library) (u : UserLogic) (clock : ℕ → ℕ) where
  pub authenticate_ok :
      (name password : String) (w : World Tables Effect) {user : User}
      → (authenticate l u clock name password w).0 ≡ ok user
      → (find_first (has_username name) w.tables.users ≡ some user)
        × (user.status ≡ user_status_enabled)
        × (l.bcrypt_matches user.password_hash password ≡ true)
        × ((authenticate l u clock name password w).1.tables ≡ w.tables)
  unfolding authenticate get_by_username first
  authenticate_ok name password w h = ground arith

  sign_ok :
      (user : User) (id : String) (ttl : ℕ) (f : Fresh) (w : World Tables Effect)
      {p : String × String}
      → (sign l u clock user id ttl f w).0 ≡ ok p
      → (p.1 ≡ f.token_id) × ((sign l u clock user id ttl f w).1.tables ≡ w.tables)
  unfolding sign sign_access_token query
  sign_ok user id ttl f w h = ground arith

  abbrev pub new_session : User → Fresh → ℕ → AuthTokenSession
  new_session user f now = record {
    id = f.session_id;
    user_id = user.id;
    username = user.username;
    expires_at = (now + u.refresh_token_ttl) / second;
  }

  save_new_ok :
      (user : User) (jti refresh : String) (ttl : ℕ) (f : Fresh) (w : World Tables Effect)
      → (save_new l u clock user jti refresh ttl f w).0 ≡ ok tt
      → (save_new l u clock user jti refresh ttl f w).1.tables
        ≡ stored l
            (new_session user f (clock w.calls))
            jti
            refresh
            ttl
            u.refresh_token_ttl
            (clock w.calls)
            w.tables
  unfolding save_new
  save_new_ok user jti refresh ttl f w h =
      create_session_ok l u.has_redis (new_session user f (clock w.calls)) jti refresh ttl
        u.refresh_token_ttl (clock w.calls) w h

  -- What an answer shows of the tokens and of their user.
  abbrev pub Shows : AuthResult → User → List Role → String → Fresh → Type 0
  Shows a user roles access f =
      (a.refresh_token ≡ f.refresh_token)
      × (a.access_token ≡ access)
      × (a.roles ≡ roles)
      × (a.user ≡ user_to_proto user (role_ids_of roles))

  pub keep_new_ok :
      (ttl : ℕ) (user : User) (roles : List Role) (f : Fresh) (signed : String × String)
      (w : World Tables Effect) {a : AuthResult}
      → (keep_new l u clock ttl user roles f signed w).0 ≡ ok a
      → Shows a user roles signed.0 f
        × ((keep_new l u clock ttl user roles f signed w).1.tables
            ≡ stored l
                (new_session user f (clock (suc w.calls)))
                signed.1
                f.refresh_token
                ttl
                u.refresh_token_ttl
                (clock (suc w.calls))
                w.tables)
  unfolding keep_new query
  keep_new_ok ttl user roles f signed w h =
      ground (arith, save_new_ok user signed.1 f.refresh_token ttl f (ticked w))

  -- The tokens of an answer, and the tables that hold their session from some time on.
  abbrev pub Issued : User → List Role → Fresh → AuthResult → Tables → Tables → Type 0
  Issued user roles f a before after =
      (now : ℕ) × (a.refresh_token ≡ f.refresh_token)
      × (a.roles ≡ roles)
      × (a.user ≡ user_to_proto user (role_ids_of roles))
      × (after
          ≡ stored l (new_session user f now) f.token_id f.refresh_token
              (min_duration u.access_token_ttl u.refresh_token_ttl) u.refresh_token_ttl now before)

  issue_new_ok :
      (user : User) (roles : List Role) (f : Fresh) (w : World Tables Effect) {a : AuthResult}
      → (issue_new l u clock (min_duration u.access_token_ttl u.refresh_token_ttl) user roles f w).0
        ≡ ok a
      → Issued user roles f a w.tables
          (issue_new l u clock
            (min_duration u.access_token_ttl u.refresh_token_ttl)
            user
            roles
            f
            w).1.tables
  unfolding issue_new
  issue_new_ok user roles f w {a} h =
      let ttl = min_duration u.access_token_ttl u.refresh_token_ttl in
      let w1 = (sign l u clock user f.session_id ttl f w).1 in
      let (signed, made, e) =
        bind_ok (keep_new l u clock ttl user roles f) (sign l u clock user f.session_id ttl f) w
          h in
      let ((r, _, rs, us), t) =
        keep_new_ok ttl user roles f signed w1 (subst (λ p. p.0 ≡ ok a) e h) in
      let (jti, kept) = sign_ok user f.session_id ttl f w made in
      (clock (suc w1.calls), r, rs, us, cc)

  pub issue_new_session_ok :
      (user : User) (roles : List Role) (f : Fresh) (w : World Tables Effect) {a : AuthResult}
      → (issue_new_session_tokens l u clock user roles f w).0 ≡ ok a
      → issue_new_session_tokens l u clock user roles f w
        ≡ issue_new l u clock (min_duration u.access_token_ttl u.refresh_token_ttl) user roles f w
  unfolding issue_new_session_tokens
  issue_new_session_ok user roles f w h = ground arith

  pub sign_in_same :
      (user : User) (f : Fresh) (w : World Tables Effect) {a : AuthResult}
      → (sign_in l u clock f user w).0 ≡ ok a
      → (any role_enabled (roles_of user.id w.tables) ≡ true)
        × (sign_in l u clock f user w
            ≡ issue_new_session_tokens l u clock user (roles_of user.id w.tables) f (ticked w))
  unfolding sign_in list_user_roles query has_enabled_roles
  sign_in_same user f w h = ground arith

  sign_in_ok :
      (user : User) (f : Fresh) (w : World Tables Effect) {a : AuthResult}
      → (sign_in l u clock f user w).0 ≡ ok a
      → (any role_enabled (roles_of user.id w.tables) ≡ true)
        × Issued user (roles_of user.id w.tables) f a w.tables (sign_in l u clock f user w).1.tables
  sign_in_ok user f w {a} h =
      let roles = roles_of user.id w.tables in
      let (admitted, e) = sign_in_same user f w h in
      let issued = subst (λ p. p.0 ≡ ok a) e h in
      let e' = issue_new_session_ok user roles f (ticked w) issued in
      (
        admitted,
        subst (λ p. Issued user roles f a w.tables p.1.tables) (sym (e ∙ e'))
            (issue_new_ok user roles f (ticked w) (subst (λ p. p.0 ≡ ok a) e' issued)),
      )

  pub login_parts :
      (raw_name raw_password : String) (f : Fresh) (w : World Tables Effect) {a : AuthResult}
      → (login l u clock raw_name raw_password f w).0 ≡ ok a
      → (name : String) × (password : String) × (validate_username raw_name ≡ ok name)
        × (validate_password raw_password true ≡ ok password)
        × (login l u clock raw_name raw_password f w ≡ login_as l u clock name password f w)
  unfolding login
  login_parts raw_name raw_password f w h = ground arith

  -- A Login that returns tokens had a name and a password of an accepted length, of an enabled user
  -- whose password hash matches and who has an enabled role; Redis then holds one more session of
  -- that user, an access token of it, which lives for the shorter of the two durations, and a
  -- refresh token of it, which lives as long as the session, and nothing else has changed.
  pub login_ok :
      (raw_name raw_password : String) (f : Fresh) (w : World Tables Effect) {a : AuthResult}
      → (login l u clock raw_name raw_password f w).0 ≡ ok a
      → (name : String) × (password : String) × (user : User) × (validate_username raw_name
          ≡ ok name)
        × (validate_password raw_password true ≡ ok password)
        × (find_first (has_username name) w.tables.users ≡ some user)
        × (user.status ≡ user_status_enabled)
        × (l.bcrypt_matches user.password_hash password ≡ true)
        × (any role_enabled (roles_of user.id w.tables) ≡ true)
        × Issued user
            (roles_of user.id w.tables)
            f
            a
            w.tables
            (login l u clock raw_name raw_password f w).1.tables
  unfolding login_as
  login_ok raw_name raw_password f w {a} h =
      let (name, password, named, passed, e) = login_parts raw_name raw_password f w h in
      let (user, known, e') =
        bind_ok (sign_in l u clock f) (authenticate l u clock name password) w
          (subst (λ p. p.0 ≡ ok a) e h) in
      let (row, enabled, hashed, same) = authenticate_ok name password w known in
      let w1 = (authenticate l u clock name password w).1 in
      let (admitted, issued) = sign_in_ok user f w1 (subst (λ p. p.0 ≡ ok a) (e ∙ e') h) in
      (
        name,
        password,
        user,
        named,
        passed,
        row,
        enabled,
        hashed,
        subst (λ t. any role_enabled (roles_of user.id t) ≡ true) same admitted,
        subst (λ p. Issued user (roles_of user.id w.tables) f a w.tables p.1.tables) (sym (e ∙ e'))
            (subst
              (λ t. Issued user (roles_of user.id t) f a t (sign_in l u clock f user w1).1.tables)
              same issued),
      )
