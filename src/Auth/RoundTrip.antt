-- ===== src/Auth/RoundTrip.antt =====
-- From Login of system/internal/logic/user.go to ValidateToken and back.
use ai_dandelion.Base.{
  ℕ, suc, ◌<◌, ◌≤◌, ◌+◌, ◌/◌, String, ◌≡◌, refl, ap, sym, ◌∙◌, true, false, some, any, find_first,
  eq_iff, is_empty, trim_space, arith,
}
use ai_dandelion.Db.{ok, World}
use ai_dandelion.Auth.Model.{User, AuthTokenSession, live, Tables, Effect, second}
use ai_dandelion.Auth.Token.{
  Library, Claims, parsed, is_hs256, hash_token, verify_claims, verify_access_token,
}
use ai_dandelion.Auth.Account.{
  has_username, user_is, roles_of, role_ids_of, role_enabled, user_to_proto,
}
use ai_dandelion.Auth.Session.{UserLogic, Fresh, AuthResult, min_duration, login, validate_token}
use ai_dandelion.Auth.Issuing.{stored, new_session}
use ai_dandelion.Auth.Accepting.{IsCalm, validate_token_runs}
use ai_dandelion.Auth.Making.{shorter, shorter_lem, new_claims, Made, login-Made}

-- What the JWT library documents: a token that was signed with a secret is not blank, and until it
-- expires it is parsed with the secret to the claims that were signed.
pub record IsJwt (l : Library) (secret : String) : Type 0 where
  pub full :
      (c : Claims) (t : String) → l.jwt_sign secret c ≡ ok t → is_empty (trim_space t) ≡ false
  pub reads :
      (c : Claims) (t : String) (now e : ℕ)
      → l.jwt_sign secret c ≡ ok t
      → c.expires_at ≡ some e
      → now / second < e
      → l.jwt_parse is_hs256 secret t now ≡ parsed c true

module _ (l : Library) (u : UserLogic) (clock : ℕ → ℕ) where
  roles-stored :
      (id : String) (s : AuthTokenSession) (jti token : String) (a r now : ℕ) (t : Tables)
      → roles_of id (stored l s jti token a r now t) ≡ roles_of id t
  unfolding roles_of
  roles-stored id s jti token a r now t = refl

  access_live :
      (s : AuthTokenSession) (jti token : String) (a r now later : ℕ) (t : Tables)
      → later < now + a
      → live later (hash_token l jti) (stored l s jti token a r now t).accesses ≡ some s.id
  access_live s jti token a r now later t h =
      ground (arith, eq_iff (hash_token l jti) (hash_token l jti))

  session_live :
      (s : AuthTokenSession) (jti token : String) (a r now later : ℕ) (t : Tables)
      → later < now + r
      → live later (trim_space s.id) (stored l s jti token a r now t).sessions ≡ some s
  session_live s jti token a r now later t h =
      ground (arith, eq_iff (trim_space s.id) (trim_space s.id))

  verified :
      (user : User) (f : Fresh) (token : String) (signed_at now : ℕ)
      → IsJwt l (trim_space u.secret)
      → is_empty (trim_space u.secret) ≡ false
      → is_empty (trim_space user.id) ≡ false
      → is_empty f.token_id ≡ false
      → 0 < (shorter l u clock)
      → now + second ≤ signed_at + (shorter l u clock)
      → l.jwt_sign (trim_space u.secret) (new_claims l u clock user f (shorter l u clock) signed_at)
        ≡ ok token
      → verify_access_token l u.secret token now
        ≡ ok (new_claims l u clock user f (shorter l u clock) signed_at)
  unfolding verify_access_token verify_claims
  verified user f token signed_at now jwt secret named jti lives time signed =
      let c = new_claims l u clock user f (shorter l u clock) signed_at in
      let read =
        IsJwt.reads jwt c token now ((signed_at + (shorter l u clock)) / second) signed
          (ground arith) (omega arith) in
      let full = IsJwt.full jwt c token signed in
      ground (arith, read, full, eq_iff (trim_space user.id) (trim_space user.id))

  -- The token is accepted at every state that has these tables, while it is alive.
  accepted :
      (f : Fresh) (w v : World Tables Effect) {a : AuthResult} {after : Tables}
      → IsJwt l (trim_space u.secret)
      → ((i j : ℕ) → i ≤ j → clock i ≤ clock j)
      → ((name : String) (user : User)
          → find_first (has_username name) w.tables.users ≡ some user
          → find_first (user_is user.id) w.tables.users ≡ some user)
      → trim_space f.session_id ≡ f.session_id
      → is_empty f.token_id ≡ false
      → v.tables ≡ after
      → IsCalm v
      → clock (suc v.calls) + second ≤ clock w.calls + (shorter l u clock)
      → Made l u clock f a w after
      → (validate_token l u clock a.access_token v).0 ≡ ok (a.user, a.roles)
  accepted f w v {a} jwt later unique plain jti same calm time m =
      let s = new_session l u clock m.user f m.stored_at in
      let t =
        stored l s f.token_id f.refresh_token (shorter l u clock) u.refresh_token_ttl m.stored_at
          w.tables in
      let e = same ∙ m.tables in
      let c = new_claims l u clock m.user f (shorter l u clock) m.signed_at in
      let twice = ap trim_space plain in
      let same_roles =
        ap (roles_of m.user.id) e
        ∙ roles-stored m.user.id s f.token_id f.refresh_token (shorter l u clock)
            u.refresh_token_ttl m.stored_at w.tables in
      let (some_time, at_most) = shorter_lem l u clock m.lives in
      let (before, before') = m.in_order in
      let soon = later v.calls (suc v.calls) (omega arith) in
      let runs =
        validate_token_runs l u clock a.access_token c s m.user v m.store m.redis calm
          (verified m.user f a.access_token m.signed_at (clock v.calls) jwt m.secret_full m.id_full
            jti some_time (omega arith) m.token)
          m.session_full (ap is_empty twice ∙ m.session_full)
          (ap (λ t. live (clock v.calls) (hash_token l f.token_id) t.accesses) e
            ∙ access_live s f.token_id f.refresh_token (shorter l u clock) u.refresh_token_ttl
                m.stored_at (clock v.calls) w.tables (omega arith)
            ∙ ap some (sym plain))
          (ap (λ t. live (clock (suc v.calls)) (trim_space (trim_space f.session_id)) t.sessions) e
            ∙ ap (λ id. live (clock (suc v.calls)) id t.sessions) twice
            ∙ session_live s f.token_id f.refresh_token (shorter l u clock) u.refresh_token_ttl
                m.stored_at (clock (suc v.calls)) w.tables (omega arith))
          (omega arith)
          (ap (λ t. find_first (user_is m.user.id) t.users) e ∙ unique m.name m.user m.known)
          m.enabled (ap (any role_enabled) same_roles ∙ m.has_role) in
      runs
      ∙ ap (λ rs. ok (user_to_proto m.user (role_ids_of rs), rs)) same_roles
      ∙ ap (λ us. ok (us, roles_of m.user.id w.tables)) (sym m.same_user)
      ∙ ap (λ rs. ok (a.user, rs)) (sym m.same_roles)

  -- After a Login, while the state is as it left it and no call fails, and until a second before the
  -- (shorter l u clock) of the two durations is over, ValidateToken accepts the access token that Login has
  -- returned and answers with the user and the roles that Login has returned. The JWT library reads
  -- what it has signed, the clock does not go back, the ids of the users are unique, the id of the
  -- session has no space at its ends, and the id of the token is not empty.
  pub login-validate_token :
      (raw_name raw_password : String) (f : Fresh) (w v : World Tables Effect) {a : AuthResult}
      → IsJwt l (trim_space u.secret)
      → ((i j : ℕ) → i ≤ j → clock i ≤ clock j)
      → ((name : String) (user : User)
          → find_first (has_username name) w.tables.users ≡ some user
          → find_first (user_is user.id) w.tables.users ≡ some user)
      → trim_space f.session_id ≡ f.session_id
      → is_empty f.token_id ≡ false
      → (login l u clock raw_name raw_password f w).0 ≡ ok a
      → v.tables ≡ (login l u clock raw_name raw_password f w).1.tables
      → IsCalm v
      → clock (suc v.calls) + second
        ≤ clock w.calls + min_duration u.access_token_ttl u.refresh_token_ttl
      → (validate_token l u clock a.access_token v).0 ≡ ok (a.user, a.roles)
  unfolding shorter
  login-validate_token raw_name raw_password f w v jwt later unique plain jti h same calm time =
      accepted f w v jwt later unique plain jti same calm time
        (login-Made l u clock raw_name raw_password f w later h)
