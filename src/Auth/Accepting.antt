-- ===== src/Auth/Accepting.antt =====
-- That ValidateToken accepts the access token of a session that is there, when no call fails.
use ai_dandelion.Base.{
  ℕ, suc, ◌<◌, ◌/◌, String, ◌≡◌, true, false, none, some, any, find_first, eq_iff, is_empty,
  trim_space, arith,
}
use ai_dandelion.Db.{ok, World, Err, first, query, ticked}
use ai_dandelion.Auth.Model.{
  User, AuthTokenSession, live, Tables, Effect, second, user_status_enabled,
}
use ai_dandelion.Auth.Token.{Library, Claims, hash_token, expired_token, verify_access_token}
use ai_dandelion.Auth.Store.{get_session, access_session_id}
use ai_dandelion.Auth.Account.{
  get_user, user_is, list_user_roles, roles_of, has_enabled_roles, role_ids_of, role_enabled,
  user_to_proto,
}
use ai_dandelion.Auth.Session.{
  UserLogic, session_or, session_user, admitted_roles, validate_token, claimed_session,
  validate_user, validate_session,
}

-- No call fails.
abbrev pub IsCalm : World Tables Effect → Type 0
IsCalm w = (n : ℕ) → w.faults n ≡ none

module _ (l : Library) (u : UserLogic) (clock : ℕ → ℕ) where
  claimed_runs :
      (c : Claims) (w : World Tables Effect)
      → u.has_redis ≡ true
      → IsCalm w
      → is_empty c.session_id ≡ false
      → is_empty (trim_space c.session_id) ≡ false
      → live (clock w.calls) (hash_token l c.id) w.tables.accesses ≡ some c.session_id
      → claimed_session l u clock c w ≡ (ok c.session_id, ticked w)
  unfolding claimed_session access_session_id first
  claimed_runs c w redis calm full full' h =
      ground (arith, calm w.calls, eq_iff c.session_id c.session_id)

  session_runs :
      (e : Err) (id : String) (s : AuthTokenSession) (w : World Tables Effect)
      → u.has_redis ≡ true
      → IsCalm w
      → live (clock w.calls) (trim_space id) w.tables.sessions ≡ some s
      → clock w.calls / second < s.expires_at
      → session_or l u clock e id w ≡ (ok s, ticked w)
  unfolding session_or get_session query
  session_runs e id s w redis calm h time = ground (arith, calm w.calls)

  user_runs :
      (s : AuthTokenSession) (user : User) (w : World Tables Effect)
      → IsCalm w
      → find_first (user_is s.user_id) w.tables.users ≡ some user
      → user.status ≡ user_status_enabled
      → any role_enabled (roles_of user.id w.tables) ≡ true
      → (validate_user l u clock s w).0
        ≡ ok (
          user_to_proto user (role_ids_of (roles_of user.id w.tables)),
          roles_of user.id w.tables,
        )
  unfolding validate_user session_user get_user first admitted_roles list_user_roles query
      has_enabled_roles
  user_runs s user w calm found enabled roles = ground (arith, calm w.calls, calm (suc w.calls))

  -- What a token stands for at a state and a time.
  pub validate_token_runs :
      (token : String) (c : Claims) (s : AuthTokenSession) (user : User) (w : World Tables Effect)
      → u.has_store ≡ true
      → u.has_redis ≡ true
      → IsCalm w
      → verify_access_token l u.secret token (clock w.calls) ≡ ok c
      → is_empty c.session_id ≡ false
      → is_empty (trim_space c.session_id) ≡ false
      → live (clock w.calls) (hash_token l c.id) w.tables.accesses ≡ some c.session_id
      → live (clock (suc w.calls)) (trim_space c.session_id) w.tables.sessions ≡ some s
      → clock (suc w.calls) / second < s.expires_at
      → find_first (user_is s.user_id) w.tables.users ≡ some user
      → user.status ≡ user_status_enabled
      → any role_enabled (roles_of user.id w.tables) ≡ true
      → (validate_token l u clock token w).0
        ≡ ok (
          user_to_proto user (role_ids_of (roles_of user.id w.tables)),
          roles_of user.id w.tables,
        )
  unfolding validate_token validate_session
  validate_token_runs token c s user w store redis calm verified full full' access kept time found
        enabled roles =
      let first_step = claimed_runs c w redis calm full full' access in
      let second_step = session_runs expired_token c.session_id s (ticked w) redis calm kept time in
      let last = user_runs s user (ticked (ticked w)) calm found enabled roles in
      ground (arith, first_step, second_step, last)
