-- ===== src/Auth/Token.antt =====
-- toolbox/authctx/authctx.go: the claims of an access token, signing and verifying.
-- SHA-256, the JWT library and bcrypt are the fields of `Library`, and the random texts that an
-- operation draws are its arguments.
use ai_dandelion.Base.{
  ℕ, ◌+◌, ◌*◌, ◌/◌, String, Bool, not, ◌&&◌, ◌||◌, Option, none, some, List, [], ◌∷◌, ◌++◌,
  if◌then◌else◌, str_eq, ◌==◌, any, is_empty, trim_space,
}
use ai_dandelion.Db.{Result, ok, err, msg, Err, raise, lift, query, ◌>>=◌}
use ai_dandelion.Auth.Model.{AuthAction, second}

-- `id`, `subject`, `issued_at` and `expires_at` are the registered claims; the times are in seconds.
pub record Claims : Type 0 where
  pub user_id : String
  pub username : String
  pub role_ids : List String
  pub session_id : String
  pub token_type : String
  pub id : String
  pub subject : String
  pub issued_at : ℕ
  pub expires_at : Option ℕ

-- What jwt.ParseWithClaims returns: an error, which is jwt.ErrTokenExpired or another, or claims
-- with the field `Valid` of the token.
pub data Parsed : Type 0 where
  rejected : Parsed
  expired : Parsed
  parsed : Claims → Bool → Parsed

-- `jwt_parse` takes the test of the signing method that the key function makes.
pub record Library : Type 0 where
  pub sha256_hex : String → String
  pub jwt_sign : String → Claims → Result String
  pub jwt_parse : (String → Bool) → String → String → ℕ → Parsed
  pub bcrypt_matches : String → String → Bool

pub record UserRef : Type 0 where
  pub id : String
  pub username : String
  pub role_ids : List String

abbrev pub default_token_ttl : ℕ
default_token_ttl = 4 * 3600 * second

abbrev pub invalid_token : Err
invalid_token = msg "invalid token"

abbrev pub expired_token : Err
expired_token = msg "token expired"

-- The texts seen so far come first.
unfoldable pub normalize_from : List String → List String → List String
normalize_from seen [] = seen
normalize_from seen (r ∷ rs) =
    let name = trim_space r in
    if is_empty name || any (str_eq name) seen
    then normalize_from seen rs
    else normalize_from (seen ++ name ∷ []) rs

unfoldable pub normalize_role_ids : List String → List String
normalize_role_ids rs = normalize_from [] rs

-- A draw of random bytes, which may fail; the text drawn is the argument.
abbrev pub new_opaque_token : String → AuthAction String
new_opaque_token fresh = query (λ t. fresh)

abbrev pub or_default : ℕ → ℕ
or_default ttl = if ttl == 0 then default_token_ttl else ttl

unfoldable pub token_ttl_seconds : ℕ → ℕ
token_ttl_seconds ttl = or_default ttl / second

unfoldable pub verify_claims : Claims → Bool → Result Claims
verify_claims c valid = elim c.expires_at [
  | none ↦ err invalid_token
  | some _ ↦
      if not valid
      then err invalid_token
      else if not (is_empty c.token_type) && not (str_eq c.token_type "access")
      then err invalid_token
      else if is_empty c.user_id
          || is_empty c.id
          || (not (is_empty c.subject) && not (str_eq c.subject c.user_id))
      then err invalid_token
      else ok c
]

abbrev pub is_hs256 : String → Bool
is_hs256 m = str_eq m "HS256"

module _ (l : Library) where
  unfoldable pub hash_token : String → String
  hash_token token = l.sha256_hex (trim_space token)

  abbrev pub claims_for : UserRef → String → ℕ → String → ℕ → Claims
  claims_for u session ttl token_id now = record {
    user_id = trim_space u.id;
    username = trim_space u.username;
    role_ids = normalize_role_ids u.role_ids;
    session_id = trim_space session;
    token_type = "access";
    id = token_id;
    subject = trim_space u.id;
    issued_at = now / second;
    expires_at = some ((now + or_default ttl) / second);
  }

  abbrev signed : Result String → String → Result (String × String)
  signed (err e) token_id = err e
  signed (ok s) token_id = ok (s, token_id)

  -- The signed token and its id.
  unfoldable pub sign_access_token :
      String → UserRef → String → ℕ → String → ℕ → AuthAction (String × String)
  sign_access_token secret u session ttl fresh now =
      if is_empty (trim_space secret)
      then raise (msg "auth token secret is required")
      else if is_empty (trim_space u.id)
      then raise (msg "user id is required")
      else new_opaque_token fresh >>= λ token_id.
          lift (
            signed (l.jwt_sign (trim_space secret) (claims_for u session ttl token_id now))
              token_id)

  abbrev verdict : Parsed → Result Claims
  verdict rejected = err invalid_token
  verdict expired = err expired_token
  verdict (parsed c valid) = verify_claims c valid

  unfoldable pub verify_access_token : String → String → ℕ → Result Claims
  verify_access_token secret token now =
      if is_empty (trim_space secret)
      then err (msg "auth token secret is required")
      else if is_empty (trim_space token)
      then err invalid_token
      else verdict (l.jwt_parse is_hs256 (trim_space secret) token now)
