-- ===== src/Auth/Tests.antt =====
-- The theorems on signing in at concrete inputs.
use ai_dandelion.Base.{
  ℕ, zero, suc, ◌<◌, ◌≤◌, ◌+◌, ◌/◌, arith, String, ◌≡◌, ◌≢◌, ◌⊎◌, refl, ap, true, false, none, some,
  List, [], ◌∷◌, str_eq, eq_iff, is_empty, trim_space, find_first, any, select, byte_count,
}
use mathlib.Core.Bool.{false≢true}
use ai_dandelion.Db.{ok, err, fault, World, exec, first, query}
use ai_dandelion.Auth.Model.{
  User, Role, AuthTokenSession, live, Tables, Effect, second, user_status_enabled,
}
use ai_dandelion.Auth.Token.{
  Claims, hash_token, sign_access_token, verify_access_token, verify_claims, normalize_role_ids,
  normalize_from, token_ttl_seconds,
}
use ai_dandelion.Auth.Store.{
  create_session, set_session, set_access, set_refresh, delete_session, take_refresh,
  consume_refresh_session_id, get_session, access_session_id, revoke_session, save_rotated_tokens,
}
use ai_dandelion.Auth.Account.{
  get_by_username, get_user, has_username, user_is, list_user_roles, roles_of, sort_roles,
  has_enabled_roles, role_ids_of, role_enabled, UserView, user_to_proto, validate_username,
  validate_password,
}
use ai_dandelion.Auth.Session.{
  Fresh, AuthResult, min_duration, login, login_as, sign_in, authenticate, issue_new_session_tokens,
  issue_new, keep_new, save_new, sign, refresh_token, refresh_session, consume_refresh, logout,
  validate_token, validate_session, validate_user, claimed_session, session_or, session_user,
  admitted_roles, rotate, rotate_as, rotate_with, issue_rotated, issue_rotated_tokens, keep_rotated,
  save_rotated,
}
use ai_dandelion.Auth.Sample.{
  plain, alice, editor, logic, clock, calm, draw, draw_again, one_session, signed_in,
}
use ai_dandelion.Auth.Issuing.{create_session_err, login_ok, Issued}
use ai_dandelion.Auth.Refreshing.{refresh_token_once}
use ai_dandelion.Auth.Ending.{validate_token_ok, logout_ends_session, Admitted}
use ai_dandelion.Auth.Signing.{signing, signing-IsJwt}
use ai_dandelion.Auth.RoundTrip.{login-validate_token}

abbrev answer_of : Fresh → ℕ → ℕ → AuthResult
answer_of f a r = record {
  user = user_to_proto alice ("r1" ∷ []);
  roles = editor ∷ [];
  access_token = "s1";
  refresh_token = f.refresh_token;
  access_expires_in = a;
  refresh_expires_in = r;
}

login_runs : (login plain logic clock " alice" "secret" draw calm).0 ≡ ok (answer_of draw 3600 7200)
unfolding login validate_username validate_password login_as authenticate get_by_username first
    find_first sign_in list_user_roles query roles_of sort_roles any has_enabled_roles role_ids_of
    issue_new_session_tokens min_duration issue_new sign sign_access_token keep_new save_new
    create_session set_session set_access set_refresh exec hash_token token_ttl_seconds trim_space
    byte_count select normalize_role_ids normalize_from
login_runs = refl

login_ok_example :
    (name : String) × (password : String) × (user : User) × (validate_username " alice" ≡ ok name)
    × (validate_password "secret" true ≡ ok password)
    × (find_first (has_username name) (alice ∷ []) ≡ some user)
    × (user.status ≡ user_status_enabled)
    × (str_eq user.password_hash password ≡ true)
    × (any role_enabled (roles_of user.id calm.tables) ≡ true)
    × Issued plain logic clock user
        (roles_of user.id calm.tables)
        draw
        (answer_of draw 3600 7200)
        calm.tables
        (login plain logic clock " alice" "secret" draw calm).1.tables
login_ok_example = login_ok plain logic clock " alice" "secret" draw calm login_runs

-- The second SET fails.
abbrev failing : World Tables Effect
failing = record calm { faults = λ n. elim n [ suc zero ↦ some "down" | _ ↦ none ] }

create_fails :
    (create_session plain true one_session "jti" "first" 5 7 0 failing).0 ≡ err (fault "down")
unfolding create_session set_session set_access set_refresh delete_session exec hash_token
    trim_space
create_fails = refl

create_session_err_example :
    ((create_session plain true one_session "jti" "first" 5 7 0 failing).1.tables.refreshes
      ≡ calm.tables.refreshes)
    × (((n : ℕ) → (failing.faults n ≡ none) ⊎ (failing.faults (suc n) ≡ none))
        → ((create_session plain true one_session "jti" "first" 5 7 0 failing).1.tables
            ≡ calm.tables)
          ⊎ ((create_session plain true one_session "jti" "first" 5 7 0 failing).1.tables.sessions
                (trim_space "s1")
              ≡ none))
create_session_err_example =
    create_session_err plain true one_session "jti" "first" 5 7 0 failing create_fails

refresh_runs :
    (refresh_token plain logic clock " first" draw_again signed_in).0
    ≡ ok (answer_of draw_again 3600 7199)
unfolding refresh_token consume_refresh consume_refresh_session_id take_refresh exec trim_space
    hash_token refresh_session session_or get_session query rotate session_user get_user first
    find_first rotate_as admitted_roles list_user_roles roles_of sort_roles select any
    has_enabled_roles rotate_with issue_rotated_tokens min_duration issue_rotated sign
    sign_access_token keep_rotated save_rotated save_rotated_tokens set_access set_refresh
    role_ids_of token_ttl_seconds normalize_role_ids normalize_from
refresh_runs = refl

hashes_differ : hash_token plain "second" ≢ hash_token plain (trim_space " first")
unfolding hash_token trim_space
hashes_differ = λ e. false≢true (ap (λ s. str_eq s "first") e)

refresh_token_once_example :
    (refresh_token plain logic clock " first" draw
      (refresh_token plain logic clock " first" draw_again signed_in).1).0
    ≢ ok (answer_of draw 1 1)
refresh_token_once_example =
    refresh_token_once plain logic clock " first" draw_again draw signed_in hashes_differ
      refresh_runs

validate_runs :
    (validate_token plain logic clock "s1" signed_in).0
    ≡ ok (user_to_proto alice ("r1" ∷ []), editor ∷ [])
unfolding validate_token verify_access_token verify_claims validate_session claimed_session
    access_session_id first hash_token trim_space session_or get_session query validate_user
    session_user get_user find_first admitted_roles list_user_roles roles_of sort_roles select any
    has_enabled_roles role_ids_of
validate_runs = refl

validate_token_ok_example :
    (c : Claims) × (verify_access_token plain "key" "s1" (clock signed_in.calls) ≡ ok c)
    × (live (clock signed_in.calls) (hash_token plain c.id) signed_in.tables.accesses
        ≡ some c.session_id)
    × ((s : AuthTokenSession) × (live
            (clock (suc signed_in.calls))
            (trim_space c.session_id)
            signed_in.tables.sessions
          ≡ some s)
        × (clock (suc signed_in.calls) / second < s.expires_at)
        × Admitted s (user_to_proto alice ("r1" ∷ [])) (editor ∷ []) signed_in.tables)
validate_token_ok_example = validate_token_ok plain logic clock "s1" signed_in validate_runs

consume_runs : (consume_refresh plain logic clock (trim_space "first ") signed_in).0 ≡ ok "s1"
unfolding consume_refresh consume_refresh_session_id take_refresh exec trim_space hash_token
consume_runs = refl

logout_runs : (logout plain logic clock "first " signed_in).0 ≡ ok tt
unfolding logout consume_refresh_session_id take_refresh exec trim_space hash_token revoke_session
    delete_session
logout_runs = refl

first_is_full : is_empty (trim_space "first ") ≡ false
unfolding trim_space
first_is_full = refl

logout_ends_session_example :
    ((f : Fresh) (a : AuthResult)
      → (refresh_session plain logic clock "s1" f (logout plain logic clock "first " signed_in).1).0
        ≢ ok a)
    × ((token : String) (c : Claims) (a : UserView × List Role)
        → verify_access_token plain "key" token
            (clock (logout plain logic clock "first " signed_in).1.calls)
          ≡ ok c
        → c.session_id ≡ "s1"
        → (validate_token plain logic clock token (logout plain logic clock "first " signed_in).1).0
          ≢ ok a)
logout_ends_session_example =
    logout_ends_session plain logic clock "first " signed_in first_is_full consume_runs logout_runs

abbrev given : AuthResult
given = record (answer_of draw 3600 7200) { access_token = "token" }

login_signs : (login signing logic clock " alice" "secret" draw calm).0 ≡ ok given
unfolding login validate_username validate_password login_as authenticate get_by_username first
    find_first sign_in list_user_roles query roles_of sort_roles any has_enabled_roles role_ids_of
    issue_new_session_tokens min_duration issue_new sign sign_access_token keep_new save_new
    create_session set_session set_access set_refresh exec hash_token token_ttl_seconds trim_space
    byte_count select normalize_role_ids normalize_from
login_signs = refl

-- The state that the sign-in leaves, a second later.
abbrev later_on : World Tables Effect
later_on = record calm {
  tables = (login signing logic clock " alice" "secret" draw calm).1.tables;
  calls = second;
}

one_alice :
    (name : String) (user : User)
    → find_first (has_username name) (alice ∷ []) ≡ some user
    → find_first (user_is user.id) (alice ∷ []) ≡ some user
unfolding find_first
one_alice name user h = ground (arith, eq_iff alice.id user.id)

session_is_plain : trim_space draw.session_id ≡ draw.session_id
unfolding trim_space
session_is_plain = refl

in_time :
    clock (suc later_on.calls) + second
    ≤ clock calm.calls + min_duration logic.access_token_ttl logic.refresh_token_ttl
unfolding min_duration
in_time = ground arith

login-validate_token_example :
    (validate_token signing logic clock "token" later_on).0
    ≡ ok (user_to_proto alice ("r1" ∷ []), editor ∷ [])
login-validate_token_example =
    login-validate_token signing logic clock " alice" "secret" draw calm later_on
      (signing-IsJwt (trim_space logic.secret)) (λ i j h. omega arith) one_alice session_is_plain
      refl login_signs refl (λ n. refl) in_time
