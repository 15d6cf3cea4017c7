-- ===== src/Auth/Store.antt =====
-- system/internal/dao/auth_token.go: the sessions and tokens that Redis keeps.
-- Every call of Redis may fail. The time at which Redis reads or writes a key is the argument
-- `now` of an operation: a call of the operation takes no time.
use ai_dandelion.Base.{
  ℕ, ◌+◌, ◌/◌, String, Bool, not, ◌||◌, Option, none, some, if◌then◌else◌, ◌==◌, leb, is_empty,
  trim_space,
}
use ai_dandelion.Db.{
  Result, ok, err, msg, Err, attempt, pure, raise, first, query, exec, ◌>>=◌, ◌>>◌,
}
use ai_dandelion.Auth.Model.{AuthTokenSession, put, drop, live, AuthAction, second}
use ai_dandelion.Auth.Token.{Library, hash_token}

abbrev pub auth_token_not_found : Err
auth_token_not_found = msg "auth token not found"

-- GET or GETDEL as a text and an error: the text is empty with any error, redis.Nil included, so
-- the test of the empty text comes before the error is looked at.
abbrev pub session_id_of : Result String → AuthAction String
session_id_of (err e) = raise auth_token_not_found
session_id_of (ok s) = if is_empty (trim_space s) then raise auth_token_not_found else pure s

unfoldable pub set_session : String → AuthTokenSession → ℕ → AuthAction Unit
set_session id s expires = exec (λ t. (
  tt,
  record t { sessions = put (trim_space id) (record { value = s; expires = expires }) t.sessions },
))

unfoldable pub delete_session : String → AuthAction Unit
delete_session id = exec (λ t. (tt, record t { sessions = drop (trim_space id) t.sessions }))

module _ (l : Library) where
  unfoldable pub set_access : String → String → ℕ → AuthAction Unit
  set_access jti session expires = exec (λ t. (
    tt,
    record t {
      accesses = put (hash_token l jti) (record { value = session; expires = expires }) t.accesses;
    },
  ))

  unfoldable pub delete_access : String → AuthAction Unit
  delete_access jti = exec (λ t. (tt, record t { accesses = drop (hash_token l jti) t.accesses }))

  unfoldable pub set_refresh : String → String → ℕ → AuthAction Unit
  set_refresh token session expires = exec (λ t. (
    tt,
    record t {
      refreshes =
          put (hash_token l token) (record { value = session; expires = expires }) t.refreshes;
    },
  ))

  -- GETDEL: the value, and the key is gone.
  unfoldable pub take_refresh : String → ℕ → AuthAction (Option String)
  take_refresh token now = exec (λ t. (
    live now (hash_token l token) t.refreshes,
    record t { refreshes = drop (hash_token l token) t.refreshes },
  ))

  abbrev found : Option String → AuthAction String
  found none = raise auth_token_not_found
  found (some s) = pure s

  abbrev undone {ℓ} : {A : Type ℓ} → AuthAction Unit → Result A → AuthAction Unit
  undone cleanup (ok _) = pure tt
  undone cleanup (err e) = attempt cleanup >> raise e

  -- DEL of two keys is one call.
  unfoldable pub delete_session_and_access : String → String → AuthAction Unit
  delete_session_and_access id jti = exec (λ t. (
    tt,
    record t {
      sessions = drop (trim_space id) t.sessions;
      accesses = drop (hash_token l jti) t.accesses;
    },
  ))

  unfoldable pub create_session :
      Bool → AuthTokenSession → String → String → ℕ → ℕ → ℕ → AuthAction Unit
  create_session available s jti token access_ttl refresh_ttl now =
      if not available
      then raise (msg "auth token redis store is unavailable")
      else if is_empty (trim_space s.id) || is_empty (trim_space s.user_id)
      then raise (msg "auth token session is incomplete")
      else if access_ttl == 0 || refresh_ttl == 0
      then raise (msg "auth token ttl must be positive")
      else set_session s.id s (now + refresh_ttl)
        >> (attempt (set_access jti s.id (now + access_ttl)) >>= undone (delete_session s.id))
        >> (attempt (set_refresh token s.id (now + refresh_ttl))
            >>= undone (delete_session_and_access s.id jti))

  unfoldable pub save_rotated_tokens : Bool → String → String → String → ℕ → ℕ → ℕ → AuthAction Unit
  save_rotated_tokens available session jti token access_ttl refresh_ttl now =
      if not available
      then raise (msg "auth token redis store is unavailable")
      else if is_empty (trim_space session) || access_ttl == 0 || refresh_ttl == 0
      then raise (msg "rotated auth token data is incomplete")
      else set_access jti session (now + access_ttl)
        >> (attempt (set_refresh token session (now + refresh_ttl)) >>= undone (delete_access jti))

  unfoldable pub access_session_id : Bool → String → ℕ → AuthAction String
  access_session_id available jti now =
      if not available
      then raise (msg "auth token redis store is unavailable")
      else attempt (first (λ t. live now (hash_token l jti) t.accesses)) >>= session_id_of

  unfoldable pub consume_refresh_session_id : Bool → String → ℕ → AuthAction String
  consume_refresh_session_id available token now =
      if not available
      then raise (msg "auth token redis store is unavailable")
      else attempt (take_refresh token now >>= found) >>= session_id_of

abbrev unexpired_session : ℕ → AuthTokenSession → AuthAction AuthTokenSession
unexpired_session now s =
    if leb s.expires_at (now / second) then raise auth_token_not_found else pure s

abbrev session_found : ℕ → Option AuthTokenSession → AuthAction AuthTokenSession
session_found now none = raise auth_token_not_found
session_found now (some s) = unexpired_session now s

unfoldable pub get_session : Bool → String → ℕ → AuthAction AuthTokenSession
get_session available id now =
    if not available
    then raise (msg "auth token redis store is unavailable")
    else query (λ t. live now (trim_space id) t.sessions) >>= session_found now

unfoldable pub revoke_session : Bool → String → AuthAction Unit
revoke_session available id =
    if not available then raise (msg "auth token redis store is unavailable") else delete_session id
