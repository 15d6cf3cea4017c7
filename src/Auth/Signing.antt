-- ===== src/Auth/Signing.antt =====
-- A JWT library that signs the claims of one sign-in, for the test of the round trip.
use ai_dandelion.Base.{
  ℕ, String, Bool, true, false, none, some, ◌≡◌, ap, List, [], ◌∷◌, str_eq, eq_iff, ltb, leb, ◌&&◌,
  if◌then◌else◌, arith, is_empty, trim_space, ◌<◌, ◌/◌,
}
use ai_dandelion.Db.{ok, err, msg}
use ai_dandelion.Auth.Model.{second}
use ai_dandelion.Auth.Token.{Library, Claims, parsed, expired, is_hs256}
use ai_dandelion.Auth.RoundTrip.{IsJwt}

abbrev pub signed_claims : Claims
signed_claims = record {
  user_id = "u1";
  username = "alice";
  role_ids = [];
  session_id = "s1";
  token_type = "access";
  id = "jti";
  subject = "u1";
  issued_at = 100;
  expires_at = some 3700;
}

abbrev is_at : ℕ → ℕ → Bool
is_at n m = leb n m && leb m n

abbrev no_roles : List String → Bool
no_roles [] = true
no_roles (id ∷ ids) = false

abbrev expires_then : Claims → Bool
expires_then c = elim c.expires_at [ none ↦ false | some n ↦ is_at n 3700 ]

abbrev is_signed : Claims → Bool
is_signed c =
    str_eq c.user_id "u1"
    && str_eq c.username "alice"
    && no_roles c.role_ids
    && str_eq c.session_id "s1"
    && str_eq c.token_type "access"
    && str_eq c.id "jti"
    && str_eq c.subject "u1"
    && is_at c.issued_at 100
    && expires_then c

abbrev pub signing : Library
signing = record {
  sha256_hex = λ s. s;
  jwt_sign = λ secret c. if is_signed c then ok "token" else err (msg "not signed");
  jwt_parse = λ allowed secret token now.
      if ltb (now / second) 3700 then parsed signed_claims true else expired;
  bcrypt_matches = str_eq;
}

signed_lem : (c : Claims) → is_signed c ≡ true → c ≡ signed_claims
signed_lem c h = ground (
  arith,
  eq_iff c.user_id "u1",
  eq_iff c.username "alice",
  eq_iff c.session_id "s1",
  eq_iff c.token_type "access",
  eq_iff c.id "jti",
  eq_iff c.subject "u1",
)

signs_lem :
    (secret t : String) (c : Claims)
    → signing.jwt_sign secret c ≡ ok t
    → (is_signed c ≡ true) × (t ≡ "token")
signs_lem secret t c h = ground arith

reads_lem :
    (secret t : String) (c : Claims) (now e : ℕ)
    → signing.jwt_sign secret c ≡ ok t
    → c.expires_at ≡ some e
    → now / second < e
    → signing.jwt_parse is_hs256 secret t now ≡ parsed c true
reads_lem secret t c now e h expires time =
    let same = signed_lem c (signs_lem secret t c h).0 in ground (arith, same)

pub signing-IsJwt : (secret : String) → IsJwt signing secret
unfolding trim_space
signing-IsJwt secret = record {
  full = λ c t h. ap (λ x. is_empty (trim_space x)) (signs_lem secret t c h).1;
  reads = λ c t now e h expires time. reads_lem secret t c now e h expires time;
}
