-- ===== src/Auth/Sample.antt =====
-- A library, a configuration and a state in which a user has signed in, for the tests.
use ai_dandelion.Base.{ℕ, ◌*◌, ◌+◌, String, true, none, some, [], ◌∷◌, str_eq}
use ai_dandelion.Db.{ok, World}
use ai_dandelion.Auth.Model.{User, Role, AuthTokenSession, put, Tables, Effect, second}
use ai_dandelion.Auth.Token.{Library, Claims, parsed}
use ai_dandelion.Auth.Session.{UserLogic, Fresh}

-- A token is the id of its session, its signature is not looked at, and a hash is the text itself.
abbrev pub claims_of : String → Claims
claims_of session = record {
  user_id = "u1";
  username = "alice";
  role_ids = [];
  session_id = session;
  token_type = "access";
  id = "jti";
  subject = "u1";
  issued_at = 1;
  expires_at = some 3600;
}

abbrev pub plain : Library
plain = record {
  sha256_hex = λ s. s;
  jwt_sign = λ secret c. ok c.session_id;
  jwt_parse = λ allowed secret token now. parsed (claims_of token) true;
  bcrypt_matches = str_eq;
}

abbrev pub alice : User
alice = record {
  id = "u1";
  username = "alice";
  email = "a@b.c";
  phone = "";
  password_hash = "secret";
  status = 1;
  created_at = 1;
  updated_at = 1;
}

abbrev pub editor : Role
editor = record {
  id = "r1";
  name = "editor";
  code = "editor";
  status = 1;
  remark = "";
  sort = 0;
  created_at = 1;
  updated_at = 1;
}

abbrev pub logic : UserLogic
logic = record {
  has_store = true;
  has_redis = true;
  secret = "key";
  access_token_ttl = 3600 * second;
  refresh_token_ttl = 7200 * second;
}

abbrev pub clock : ℕ → ℕ
clock n = 100 * second + n

abbrev pub calm : World Tables Effect
calm = record {
  tables = record {
    users = alice ∷ [];
    roles = editor ∷ [];
    user_roles = record { user_id = "u1"; role_id = "r1" } ∷ [];
    sessions = λ k. none;
    accesses = λ k. none;
    refreshes = λ k. none;
  };
  calls = 0;
  faults = λ n. none;
  log = [];
}

abbrev pub draw : Fresh
draw = record { session_id = "s1"; token_id = "jti"; refresh_token = "first" }

abbrev pub draw_again : Fresh
draw_again = record { session_id = "s2"; token_id = "jti2"; refresh_token = "second" }

abbrev pub one_session : AuthTokenSession
one_session = record { id = "s1"; user_id = "u1"; username = "alice"; expires_at = 7300 }

-- A state in which that session has an access token and a refresh token.
abbrev pub signed_in : World Tables Effect
signed_in = record calm {
  tables = record calm.tables {
    sessions =
        put "s1" (record { value = one_session; expires = 7300 * second }) calm.tables.sessions;
    accesses = put "jti" (record { value = "s1"; expires = 3700 * second }) calm.tables.accesses;
    refreshes =
        put "first" (record { value = "s1"; expires = 7300 * second }) calm.tables.refreshes;
  };
}
