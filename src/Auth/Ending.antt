-- ===== src/Auth/Ending.antt =====
-- What Logout and ValidateToken of system/internal/logic/user.go do to a session.
use ai_dandelion.Base.{
  ℕ, suc, ◌<◌, ◌/◌, String, ◌≡◌, ◌≢◌, inl, inr, ◌∙◌, subst, sym, true, false, none, some, List,
  eq_iff, arith, is_empty, trim_space, find_first, any,
}
use ai_dandelion.Db.{Result, ok, World, Err, exec, first, query, ◌>>=◌}
use ai_dandelion.Db.Rules.{Result-cases, bind_ok}
use ai_dandelion.Auth.Model.{
  User, Role, AuthTokenSession, live, Tables, Effect, second, user_status_enabled,
}
use ai_dandelion.Auth.Token.{Library, Claims, expired_token, hash_token, verify_access_token}
use ai_dandelion.Auth.Store.{
  take_refresh, consume_refresh_session_id, get_session, access_session_id, delete_session,
  revoke_session,
}
use ai_dandelion.Auth.Account.{
  get_user, user_is, list_user_roles, roles_of, has_enabled_roles, role_ids_of, role_enabled,
  UserView, user_to_proto,
}
use ai_dandelion.Auth.Session.{
  UserLogic, Fresh, AuthResult, consume_refresh, refresh_session, logout, session_or, session_user,
  rotate, invalid_refresh, admitted_roles, validate_token, claimed_session, validate_user,
  validate_session,
}

-- The user of a session, enabled and with an enabled role, is the one that the answer shows.
abbrev pub Admitted : AuthTokenSession → UserView → List Role → Tables → Type 0
Admitted s v roles t =
    (user : User) × (find_first (user_is s.user_id) t.users ≡ some user)
    × (user.status ≡ user_status_enabled)
    × (roles ≡ roles_of user.id t)
    × (any role_enabled roles ≡ true)
    × (v ≡ user_to_proto user (role_ids_of roles))

ok_injective : {A : Type 0} {a b : A} → Path (Result A) (ok a) (ok b) → a ≡ b
ok_injective e = ground arith

module _ (l : Library) (u : UserLogic) (clock : ℕ → ℕ) where
  session_or-none :
      (e : Err) (id : String) (w : World Tables Effect) {s : AuthTokenSession}
      → w.tables.sessions (trim_space id) ≡ none
      → (session_or l u clock e id w).0 ≢ ok s
  unfolding session_or get_session query
  session_or-none e id w h a = ground arith

  session_or_ok :
      (e : Err) (id : String) (w : World Tables Effect) {s : AuthTokenSession}
      → (session_or l u clock e id w).0 ≡ ok s
      → (live (clock w.calls) (trim_space id) w.tables.sessions ≡ some s)
        × (clock w.calls / second < s.expires_at)
        × ((session_or l u clock e id w).1.tables ≡ w.tables)
  unfolding session_or get_session query
  session_or_ok e id w h = ground arith

  claimed_session_ok :
      (c : Claims) (w : World Tables Effect) {id : String}
      → (claimed_session l u clock c w).0 ≡ ok id
      → (c.session_id ≡ id)
        × (live (clock w.calls) (hash_token l c.id) w.tables.accesses ≡ some id)
        × ((claimed_session l u clock c w).1.tables ≡ w.tables)
        × ((claimed_session l u clock c w).1.calls ≡ suc w.calls)
  unfolding claimed_session access_session_id first
  claimed_session_ok c w {id} h = ground (arith, eq_iff c.session_id id)

  validate_user_ok :
      (s : AuthTokenSession) (w : World Tables Effect) {v : UserView} {roles : List Role}
      → (validate_user l u clock s w).0 ≡ ok (v, roles)
      → Admitted s v roles w.tables
  unfolding validate_user session_user get_user first admitted_roles list_user_roles query
      has_enabled_roles
  validate_user_ok s w h = ground arith

  validate_session_ok :
      (c : Claims) (w : World Tables Effect) {v : UserView} {roles : List Role}
      → (validate_session l u clock c w).0 ≡ ok (v, roles)
      → (live (clock w.calls) (hash_token l c.id) w.tables.accesses ≡ some c.session_id)
        × ((s : AuthTokenSession) × (live
                (clock (suc w.calls))
                (trim_space c.session_id)
                w.tables.sessions
              ≡ some s)
            × (clock (suc w.calls) / second < s.expires_at)
            × Admitted s v roles w.tables)
  unfolding validate_session
  validate_session_ok c w {v} {roles} h =
      let (id, claimed, e) =
        bind_ok (λ id. session_or l u clock expired_token id >>= validate_user l u clock)
          (claimed_session l u clock c) w h in
      let (same, access, t1, n1) = claimed_session_ok c w claimed in
      let w1 = (claimed_session l u clock c w).1 in
      let (s, found, e') =
        bind_ok (validate_user l u clock) (session_or l u clock expired_token id) w1
          (subst (λ r. r.0 ≡ ok (v, roles)) e h) in
      let (kept, time, t2) = session_or_ok expired_token id w1 found in
      let parts =
        validate_user_ok s (session_or l u clock expired_token id w1).1
          (subst (λ r. r.0 ≡ ok (v, roles)) (e ∙ e') h) in
      (
        subst (λ x. live (clock w.calls) (hash_token l c.id) w.tables.accesses ≡ some x) (sym same)
            access,
        (
          s,
          cc,
          subst (λ n. clock n / second < s.expires_at) n1 time,
          subst (Admitted s v roles) (t2 ∙ t1) parts,
        ),
      )

  -- ValidateToken accepts a token only if its signature and claims verify, the unexpired access key
  -- of its id names the session of its claims, that session is kept in Redis and has not expired,
  -- and the user of the session is enabled and has an enabled role: the user and the roles that it
  -- returns are the ones in the database, whatever the claims say of them.
  pub validate_token_ok :
      (token : String) (w : World Tables Effect) {v : UserView} {roles : List Role}
      → (validate_token l u clock token w).0 ≡ ok (v, roles)
      → (c : Claims) × (verify_access_token l u.secret token (clock w.calls) ≡ ok c)
        × (live (clock w.calls) (hash_token l c.id) w.tables.accesses ≡ some c.session_id)
        × ((s : AuthTokenSession) × (live
                (clock (suc w.calls))
                (trim_space c.session_id)
                w.tables.sessions
              ≡ some s)
            × (clock (suc w.calls) / second < s.expires_at)
            × Admitted s v roles w.tables)
  unfolding validate_token
  validate_token_ok token w h =
      elim (Result-cases (verify_access_token l u.secret token (clock w.calls))) [
        | inl (c, e) ↦
            let (access, rest) = validate_session_ok c w (ground arith) in (c, e, access, rest)
        | inr (x, e) ↦ absurd (ground arith)
      ]

  logout_gone :
      (raw : String) (w : World Tables Effect) {id : String}
      → is_empty (trim_space raw) ≡ false
      → (consume_refresh l u clock (trim_space raw) w).0 ≡ ok id
      → (logout l u clock raw w).0 ≡ ok tt
      → (logout l u clock raw w).1.tables.sessions (trim_space id) ≡ none
  unfolding logout consume_refresh consume_refresh_session_id take_refresh revoke_session
      delete_session exec
  logout_gone raw w {id} full consumed h = ground (arith, eq_iff (trim_space id) (trim_space id))

  refresh_session-none :
      (id : String) (f : Fresh) (w : World Tables Effect) {a : AuthResult}
      → w.tables.sessions (trim_space id) ≡ none
      → (refresh_session l u clock id f w).0 ≢ ok a
  unfolding refresh_session
  refresh_session-none id f w h again =
      let (s, found, _) =
        bind_ok (λ s. rotate l u clock id s f) (session_or l u clock invalid_refresh id) w again in
      session_or-none invalid_refresh id w h found

  validate_token-none :
      (token : String) (c : Claims) (w : World Tables Effect) {a : UserView × List Role}
      → verify_access_token l u.secret token (clock w.calls) ≡ ok c
      → w.tables.sessions (trim_space c.session_id) ≡ none
      → (validate_token l u clock token w).0 ≢ ok a
  validate_token-none token c w verified h accepted =
      let (c', verified', _, (s, kept, _, _)) = validate_token_ok token w accepted in
      let same = ok_injective (sym verified ∙ verified') in
      ground (arith, subst (λ x. w.tables.sessions (trim_space x.session_id) ≡ none) same h)

  -- When Logout returns no error for a refresh token that Redis still has, the session of the token
  -- is over: no refresh token of it is exchanged and no access token of it is accepted in the state
  -- that Logout leaves, whatever fails then.
  pub logout_ends_session :
      (raw : String) (w : World Tables Effect) {id : String}
      → is_empty (trim_space raw) ≡ false
      → (consume_refresh l u clock (trim_space raw) w).0 ≡ ok id
      → (logout l u clock raw w).0 ≡ ok tt
      → ((f : Fresh) (a : AuthResult)
          → (refresh_session l u clock id f (logout l u clock raw w).1).0 ≢ ok a)
        × ((token : String) (c : Claims) (a : UserView × List Role)
            → verify_access_token l u.secret token (clock (logout l u clock raw w).1.calls) ≡ ok c
            → c.session_id ≡ id
            → (validate_token l u clock token (logout l u clock raw w).1).0 ≢ ok a)
  logout_ends_session raw w {id} full consumed h =
      let after = (logout l u clock raw w).1 in
      let gone = logout_gone raw w full consumed h in
      (
        λ f a. refresh_session-none id f after gone,
        λ token c a verified same.
            validate_token-none token c after verified
              (subst (λ x. after.tables.sessions (trim_space x) ≡ none) (sym same) gone),
      )

  -- When the call that consumes the refresh token fails, Logout returns no error all the same, and
  -- every session and token is as it was.
  logout_unnoticed :
      (raw : String) (w : World Tables Effect) {m : String}
      → u.has_store ≡ true
      → w.faults w.calls ≡ some m
      → ((logout l u clock raw w).0 ≡ ok tt) × ((logout l u clock raw w).1.tables ≡ w.tables)
  unfolding logout consume_refresh_session_id take_refresh exec
  logout_unnoticed raw w store fails = ground arith
