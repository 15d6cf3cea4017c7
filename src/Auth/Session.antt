-- ===== src/Auth/Session.antt =====
-- system/internal/logic/user.go: Login, RefreshToken, Logout and ValidateToken. `clock` gives the
-- time at every number of calls made so far, so that time passes between the steps.
use ai_dandelion.Base.{
  ℕ, ◌+◌, ◌-◌, ◌*◌, ◌/◌, String, Bool, true, not, ◌||◌, List, [], if◌then◌else◌, ltb, leb, ◌==◌,
  str_eq, is_empty, trim_space,
}
use ai_dandelion.Db.{
  Result, ok, err, msg, not_found, Err, attempt, pure, raise, lift, at_time, ◌>>=◌, ◌>>◌,
}
use ai_dandelion.Auth.Model.{User, Role, AuthTokenSession, AuthAction, user_status_enabled, second}
use ai_dandelion.Auth.Token.{
  Library, Claims, sign_access_token, verify_access_token, new_opaque_token, token_ttl_seconds,
  invalid_token, expired_token,
}
use ai_dandelion.Auth.Store.{
  create_session, save_rotated_tokens, access_session_id, consume_refresh_session_id, get_session,
  revoke_session,
}
use ai_dandelion.Auth.Account.{
  get_by_username, get_user, list_user_roles, has_enabled_roles, role_ids_of, validate_username,
  validate_password, user_not_found, UserView, user_to_proto,
}

-- `has_store` says that `tokenStore` is set, and `has_redis` that its client is. A duration that is
-- not positive is 0.
pub record UserLogic : Type 0 where
  pub has_store : Bool
  pub has_redis : Bool
  pub secret : String
  pub access_token_ttl : ℕ
  pub refresh_token_ttl : ℕ

-- The texts that an operation draws: uuid.NewString and two opaque tokens.
pub record Fresh : Type 0 where
  pub session_id : String
  pub token_id : String
  pub refresh_token : String

pub record AuthResult : Type 0 where
  pub user : UserView
  pub roles : List Role
  pub access_token : String
  pub refresh_token : String
  pub access_expires_in : ℕ
  pub refresh_expires_in : ℕ

unfoldable pub min_duration : ℕ → ℕ → ℕ
min_duration left right =
    if left == 0 then right else if right == 0 || ltb left right then left else right

abbrev no_store : Err
no_store = msg "auth token store is unavailable"

abbrev pub invalid_refresh : Err
invalid_refresh = msg "invalid or expired refresh token"

-- Whatever the error is, the caller sees this one.
abbrev pub or_else {ℓ} : {A : Type ℓ} → Err → Result A → Result A
or_else e (ok a) = ok a
or_else e (err _) = err e

abbrev pub has_store_or_fail : UserLogic → AuthAction Unit
has_store_or_fail u w = if u.has_store then (ok tt, w) else (err no_store, w)

abbrev pub enabled_or_fail : User → AuthAction Unit
enabled_or_fail user w =
    if user.status == user_status_enabled then (ok tt, w) else (err (msg "user is disabled"), w)

abbrev pub roles_or_fail : List Role → AuthAction Unit
roles_or_fail roles w =
    if has_enabled_roles roles then (ok tt, w) else (err (msg "用户未分配角色，请联系管理员"), w)

-- The roles of a user that may sign in.
unfoldable pub admitted_roles : User → AuthAction (List Role)
admitted_roles user =
    enabled_or_fail user >> (list_user_roles user.id >>= λ roles. roles_or_fail roles >> pure roles)

module _ (l : Library) (u : UserLogic) (clock : ℕ → ℕ) where
  abbrev result_of : User → List Role → String → String → ℕ → ℕ → AuthResult
  result_of user roles access refresh access_ttl refresh_ttl = record {
    user = user_to_proto user (role_ids_of roles);
    roles = roles;
    access_token = access;
    refresh_token = refresh;
    access_expires_in = token_ttl_seconds access_ttl;
    refresh_expires_in = token_ttl_seconds refresh_ttl;
  }

  unfoldable pub sign : User → String → ℕ → Fresh → AuthAction (String × String)
  sign user session ttl f = at_time clock (
      sign_access_token l u.secret
        (record { id = user.id; username = user.username; role_ids = [] }) session ttl f.token_id)

  unfoldable pub save_new : User → String → String → ℕ → Fresh → AuthAction Unit
  save_new user jti refresh access_ttl f = at_time clock λ now.
      create_session l u.has_redis
        (record {
          id = f.session_id;
          user_id = user.id;
          username = user.username;
          expires_at = (now + u.refresh_token_ttl) / second;
        })
        jti refresh access_ttl u.refresh_token_ttl now

  abbrev ttl_or_fail : ℕ → AuthAction Unit
  ttl_or_fail ttl w =
      if ttl == 0 then (err (msg "refresh token ttl must be positive"), w) else (ok tt, w)

  unfoldable pub keep_new : ℕ → User → List Role → Fresh → String × String → AuthAction AuthResult
  keep_new ttl user roles f signed = new_opaque_token f.refresh_token >>= λ refresh.
      save_new user signed.1 refresh ttl f
      >> pure (result_of user roles signed.0 refresh ttl u.refresh_token_ttl)

  unfoldable pub issue_new : ℕ → User → List Role → Fresh → AuthAction AuthResult
  issue_new ttl user roles f = sign user f.session_id ttl f >>= keep_new ttl user roles f

  unfoldable pub issue_new_session_tokens : User → List Role → Fresh → AuthAction AuthResult
  issue_new_session_tokens user roles f =
      has_store_or_fail u
      >> ttl_or_fail u.refresh_token_ttl
      >> issue_new (min_duration u.access_token_ttl u.refresh_token_ttl) user roles f

  unfoldable pub save_rotated : String → String → String → ℕ → ℕ → AuthAction Unit
  save_rotated session jti refresh access_ttl refresh_ttl =
      at_time clock (save_rotated_tokens l u.has_redis session jti refresh access_ttl refresh_ttl)

  unfoldable pub keep_rotated :
      ℕ → User → List Role → String → ℕ → Fresh → String × String → AuthAction AuthResult
  keep_rotated ttl user roles session refresh_ttl f signed =
      new_opaque_token f.refresh_token >>= λ refresh.
      save_rotated session signed.1 refresh ttl refresh_ttl
      >> pure (result_of user roles signed.0 refresh ttl refresh_ttl)

  unfoldable pub issue_rotated : ℕ → User → List Role → String → ℕ → Fresh → AuthAction AuthResult
  issue_rotated ttl user roles session refresh_ttl f =
      sign user session ttl f >>= keep_rotated ttl user roles session refresh_ttl f

  unfoldable pub issue_rotated_tokens :
      User → List Role → String → ℕ → Fresh → AuthAction AuthResult
  issue_rotated_tokens user roles session refresh_ttl f =
      has_store_or_fail u
      >> ttl_or_fail refresh_ttl
      >> issue_rotated (min_duration u.access_token_ttl refresh_ttl) user roles session refresh_ttl
          f

  abbrev invalid_login : {A : Type 0} → Result A → Result A
  invalid_login (err not_found) = err (msg "invalid username or password")
  invalid_login r = r

  abbrev password_or_fail : User → String → AuthAction Unit
  password_or_fail user password w =
      if l.bcrypt_matches user.password_hash password
      then (ok tt, w)
      else (err (msg "invalid username or password"), w)

  -- The user of a name, enabled and with the password given.
  unfoldable pub authenticate : String → String → AuthAction User
  authenticate name password =
      (attempt (get_by_username name) >>= λ r. lift (invalid_login r)) >>= λ user.
      enabled_or_fail user >> password_or_fail user password >> pure user

  abbrev enabled_roles : User → AuthAction (List Role)
  enabled_roles user = list_user_roles user.id >>= λ roles. roles_or_fail roles >> pure roles

  unfoldable pub sign_in : Fresh → User → AuthAction AuthResult
  sign_in f user = enabled_roles user >>= λ roles. issue_new_session_tokens user roles f

  unfoldable pub login_as : String → String → Fresh → AuthAction AuthResult
  login_as name password f = authenticate name password >>= sign_in f

  unfoldable pub login : String → String → Fresh → AuthAction AuthResult
  login raw_name raw_password f = lift (validate_username raw_name) >>= λ name.
      lift (validate_password raw_password true) >>= λ password. login_as name password f

  unfoldable pub consume_refresh : String → AuthAction String
  consume_refresh token =
      attempt (at_time clock (consume_refresh_session_id l u.has_redis token)) >>= λ r.
      lift (or_else invalid_refresh r)

  unfoldable pub session_or : Err → String → AuthAction AuthTokenSession
  session_or e id = attempt (at_time clock (get_session u.has_redis id)) >>= λ r. lift (or_else e r)

  unfoldable pub session_user : AuthTokenSession → AuthAction User
  session_user s = attempt (get_user s.user_id) >>= λ r. lift (user_not_found r)

  abbrev remaining : AuthTokenSession → ℕ → AuthAction ℕ
  remaining s now w =
      if leb (s.expires_at * second) now
      then (err invalid_refresh, w)
      else (ok (s.expires_at * second - now), w)

  unfoldable pub rotate_with :
      String → AuthTokenSession → Fresh → User → List Role → AuthAction AuthResult
  rotate_with id s f user roles =
      at_time clock (remaining s) >>= λ ttl. issue_rotated_tokens user roles id ttl f

  unfoldable pub rotate_as : String → AuthTokenSession → Fresh → User → AuthAction AuthResult
  rotate_as id s f user = admitted_roles user >>= rotate_with id s f user

  unfoldable pub rotate : String → AuthTokenSession → Fresh → AuthAction AuthResult
  rotate id s f = session_user s >>= rotate_as id s f

  -- After the token has been consumed.
  unfoldable pub refresh_session : String → Fresh → AuthAction AuthResult
  refresh_session id f = session_or invalid_refresh id >>= λ s. rotate id s f

  unfoldable pub refresh_token : String → Fresh → AuthAction AuthResult
  refresh_token raw f =
      has_store_or_fail u
      >> (if is_empty (trim_space raw)
          then raise (msg "refresh token is required")
          else consume_refresh (trim_space raw) >>= λ id. refresh_session id f)

  abbrev revoke_if : Result String → AuthAction Unit
  revoke_if (err e) = pure tt
  revoke_if (ok id) = revoke_session u.has_redis id

  unfoldable pub logout : String → AuthAction Unit
  logout raw =
      has_store_or_fail u
      >> (if is_empty (trim_space raw)
          then pure tt
          else attempt (at_time clock (consume_refresh_session_id l u.has_redis (trim_space raw)))
            >>= revoke_if)

  unfoldable pub claimed_session : Claims → AuthAction String
  claimed_session c =
      (attempt (at_time clock (access_session_id l u.has_redis c.id)) >>= λ r.
      lift (or_else invalid_token r))
      >>= λ id w.
          if is_empty c.session_id || not (str_eq c.session_id id)
          then (err invalid_token, w)
          else (ok id, w)

  unfoldable pub validate_user : AuthTokenSession → AuthAction (UserView × List Role)
  validate_user s = session_user s >>= λ user.
      admitted_roles user >>= λ roles. pure (user_to_proto user (role_ids_of roles), roles)

  unfoldable pub validate_session : Claims → AuthAction (UserView × List Role)
  validate_session c = claimed_session c >>= λ id. session_or expired_token id >>= validate_user

  unfoldable pub validate_token : String → AuthAction (UserView × List Role)
  validate_token token =
      has_store_or_fail u
      >> (at_time clock (λ now. lift (verify_access_token l u.secret token now))
          >>= validate_session)
