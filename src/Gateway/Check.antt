-- ===== src/Gateway/Check.antt =====
-- inner-gateway/internal/middleware/auth.go: the check of every request. The system service answers
-- by its ValidateToken (Auth.Session); `conn_fails` and `call_fails` tell whether the connection to
-- it and the call itself fail.
pub mod Passing
use Prim.Native.Char.{code}
use Prim.Native.String.{◌++◌ as ◌<>◌}
use ai_dandelion.Base.{
  ℕ, zero, suc, ◌+◌, String, Bool, true, false, not, ◌&&◌, ◌||◌, Option, none, some, List, [], ◌∷◌,
  ◌==◌, leb, if◌then◌else◌, str_eq, is_empty, trim_space, has_prefix, lower_has_prefix,
}
use ai_dandelion.Db.{Result, ok, err, pure, attempt, raise, Err, msg, fault, ◌>>=◌}
use ai_dandelion.Auth.Model.{Role, AuthAction}
use ai_dandelion.Auth.Token.{Library}
use ai_dandelion.Auth.Account.{UserView}
use ai_dandelion.Auth.Session.{UserLogic, validate_token}

-- What the check reads and writes of a request: its headers, and the values that go on to the
-- services as metadata.
pub record Request : Type 0 where
  pub method : String
  pub path : String
  pub authorization : String
  pub access_token : String
  pub bridge_token : String
  pub user_id : Option String
  pub username : Option String
  pub role_ids : Option String

-- `ctx.Next()` with the request as it is then, or 401 with a message.
pub data Decision : Type 0 where
  next : Request → Decision
  unauthorized : String → Decision

-- `strings.EqualFold`, against an ASCII text in lower case.
unfoldable pub fold_code : ℕ → ℕ
fold_code c =
    if leb b'A' c && leb c b'Z'
    then c + 32
    else if c == 0x17f
    then b's'
    else if c == 0x212a
    then b'k'
    else c

unfoldable pub fold_is : String → String → Bool
unfolding fold_code
fold_is String.[] String.[] = true
fold_is (String.◌∷◌ c s) String.[] = false
fold_is String.[] (String.◌∷◌ d t) = false
fold_is (String.◌∷◌ c s) (String.◌∷◌ d t) = fold_code (code c) == code d && fold_is s t

-- `strings.TrimRight(path, "/")`
unfoldable pub trim_slashes : String → String
trim_slashes String.[] = String.[]
trim_slashes (String.◌∷◌ c s) =
    let rest = trim_slashes s in
    if is_empty rest && code c == b'/' then String.[] else String.◌∷◌ c rest

-- `s[n:]`, where the first n characters are of one byte each.
unfoldable pub drop_bytes : ℕ → String → String
drop_bytes zero s = s
drop_bytes (suc n) String.[] = String.[]
drop_bytes (suc n) (String.◌∷◌ c s) = drop_bytes n s

abbrev pub is_public_path : String → Bool
is_public_path path =
    str_eq path "/system/auth/login"
    || str_eq path "/system/auth/refresh"
    || str_eq path "/system/auth/logout"
    || str_eq path "/realtime/ws"
    || str_eq path "/ai-agent/agent-bots/runtime"

unfoldable pub is_public_request : Request → Bool
unfolding fold_is trim_slashes
is_public_request r =
    fold_is r.method "options"
    || is_public_path (trim_slashes r.path)
    || (fold_is r.method "post"
        && has_prefix (trim_slashes r.path) "/func-operation/swagger-import/")

abbrev pub without_scheme : String → String
without_scheme header =
    if is_empty header
    then ""
    else if lower_has_prefix header "bearer "
    then trim_space (drop_bytes 7 header)
    else header

unfoldable pub bearer_token : String → String
unfolding drop_bytes
bearer_token header = without_scheme (trim_space header)

abbrev pub token_of : Request → String
token_of r =
    if is_empty (bearer_token r.authorization)
    then trim_space r.access_token
    else bearer_token r.authorization

-- `expected` is the bridge token of the configuration.
unfoldable pub is_bridge_token : String → Request → String → Bool
is_bridge_token expected r bearer =
    if is_empty (trim_space expected)
    then false
    else str_eq
        (if is_empty (trim_space r.bridge_token)
          then trim_space bearer
          else trim_space r.bridge_token)
        (trim_space expected)

-- setUserValue: an empty value is not set.
abbrev pub user_value : Option String → String → Option String
user_value before s = if is_empty (trim_space s) then before else some (trim_space s)

abbrev pub clear_external_credential_headers : Request → Request
clear_external_credential_headers r = record r { authorization = ""; access_token = "" }

-- `strings.Join(roleIDs, ",")` of the ids that are not blank.
unfoldable pub joined : List String → String
joined [] = ""
joined (x ∷ []) = x
joined (x ∷ y ∷ ys) = x <> "," <> joined (y ∷ ys)

unfoldable pub role_ids : List Role → List String
role_ids [] = []
role_ids (r ∷ rs) =
    let rest = role_ids rs in if is_empty (trim_space r.id) then rest else r.id ∷ rest

unfoldable pub as_bridge : Request → Request
as_bridge r =
    clear_external_credential_headers
      (record r { user_id = some "bridge"; username = some "channel-bridge" })

unfoldable pub as_user : UserView → List Role → Request → Request
unfolding joined role_ids
as_user v roles r = clear_external_credential_headers (record r {
  user_id = user_value r.user_id v.id;
  username = user_value r.username v.username;
  role_ids = user_value r.role_ids (joined (role_ids roles));
})

abbrev pub admit : Request → Result (UserView × List Role) → Decision
admit r (err e) = unauthorized "invalid token"
admit r (ok (v, roles)) =
    if is_empty (trim_space v.id) then unauthorized "invalid token" else next (as_user v roles r)

module _ (l : Library) (u : UserLogic) (clock : ℕ → ℕ) (expected : String)
    (conn_fails call_fails : Bool) where
  unfoldable pub ask_system : String → Request → AuthAction Decision
  unfolding as_user
  ask_system token r =
      if conn_fails
      then pure (unauthorized "auth service unavailable")
      else if call_fails
      then pure (unauthorized "invalid token")
      else attempt (validate_token l u clock token) >>= λ answer. pure (admit r answer)

  unfoldable pub auth : Request → AuthAction Decision
  unfolding is_public_request bearer_token is_bridge_token as_bridge ask_system
  auth r =
      if is_public_request r
      then pure (next r)
      else if is_empty (token_of r)
      then pure (unauthorized "missing token")
      else if is_bridge_token expected r (token_of r)
      then pure (next (as_bridge r))
      else ask_system (token_of r) r
