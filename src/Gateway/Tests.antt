-- ===== src/Gateway/Tests.antt =====
-- The theorems on tickets and on the check of requests at concrete inputs.
use ai_dandelion.Base.{
  String, ◌*◌, ◌≡◌, refl, ◌⊎◌, true, false, none, some, List, [], ◌∷◌, find_first, any, select,
  trim_space, has_prefix, lower_has_prefix, arith,
}
use ai_dandelion.Db.{ok, first, query}
use ai_dandelion.Auth.Model.{second}
use ai_dandelion.Auth.Token.{UserRef, hash_token, verify_access_token, verify_claims}
use ai_dandelion.Auth.Store.{get_session, access_session_id}
use ai_dandelion.Auth.Account.{
  get_user, list_user_roles, roles_of, sort_roles, has_enabled_roles, role_ids_of,
}
use ai_dandelion.Auth.Session.{
  validate_token, validate_session, validate_user, claimed_session, session_or, session_user,
  admitted_roles,
}
use ai_dandelion.Auth.Sample.{plain, logic, clock, signed_in}
use ai_dandelion.Gateway.Hub.{
  Event, Hub, publish_event, remember, write_all, drop, envelope_of, replay, replay_from,
}
use ai_dandelion.Gateway.Hub.Replay.{publish_all, written, IsConnected, replay-written}
use ai_dandelion.Gateway.Ticket.{TicketManager, consume}
use ai_dandelion.Gateway.Ticket.History.{
  Call, issuing, consuming, after_calls, promised, consume-promised,
}
use ai_dandelion.Gateway.Check.{
  Request, next, is_public_request, fold_is, trim_slashes, bearer_token, drop_bytes,
  is_bridge_token, as_user, joined, role_ids, ask_system, auth,
}
use ai_dandelion.Gateway.Check.Passing.{AsBridge, AsUser, auth_next}

abbrev alice : UserRef
alice = record { id = "u1"; username = "alice"; role_ids = "r1" ∷ [] }

abbrev redis : TicketManager
redis = record { ttl = 60 * second; has_store = true }

abbrev history : List Call
history = consuming "t2" 7 false ∷ issuing alice (some "t1") 5 false ∷ []

consume-promised_example :
    (consume redis " t1" 9 false (after_calls redis history)).0
    ≡ promised redis " t1" 9 false history
consume-promised_example = consume-promised redis history " t1" 9 false

abbrev request : Request
request = record {
  method = "GET";
  path = "/system/users";
  authorization = "Bearer s1";
  access_token = "";
  bridge_token = "";
  user_id = none;
  username = none;
  role_ids = none;
}

abbrev passed : Request
passed = record request {
  authorization = "";
  user_id = some "u1";
  username = some "alice";
  role_ids = some "r1";
}

auth_runs : (auth plain logic clock "" false false request signed_in).0 ≡ ok (next passed)
unfolding auth is_public_request fold_is trim_slashes bearer_token drop_bytes lower_has_prefix
    trim_space has_prefix is_bridge_token ask_system as_user joined role_ids validate_token
    verify_access_token verify_claims validate_session claimed_session access_session_id first
    hash_token session_or get_session query validate_user session_user get_user find_first
    admitted_roles list_user_roles roles_of sort_roles select any has_enabled_roles role_ids_of
auth_runs = refl

auth_next_example :
    ((is_public_request request ≡ true) × (passed ≡ request))
    ⊎ ((AsBridge "" request passed ⊎ AsUser plain logic clock signed_in request passed)
        × (passed.authorization ≡ "")
        × (passed.access_token ≡ ""))
auth_next_example = auth_next plain logic clock "" false false request passed signed_in auth_runs

abbrev event : String → String → Event
event id user = record {
  id = id;
  type_name = "note";
  occurred_at = 1;
  correlation_id = "";
  user_header = some user;
  payload = "";
}

-- A hub with one connection of u1 and one of u2.
abbrev hub : Hub
hub = record {
  clients =
      record { user_id = "u1"; connection_id = "c1" }
      ∷ record { user_id = "u2"; connection_id = "c2" }
      ∷ [];
  history = [];
  runs = [];
}

abbrev missed : List Event
missed = event "e2" "u1" ∷ event "e3" "u2" ∷ event "e4" " " ∷ []

c1-IsConnected : IsConnected "u1" "c1" hub
unfolding select
c1-IsConnected = refl

id_is_trimmed : trim_space "e1" ≡ "e1"
unfolding trim_space
id_is_trimmed = refl

replay-written_example :
    replay "e1" "u1" (publish_all missed (publish_event (event "e1" "u1") hub).1).1
    ≡ written "c1" (publish_all missed (publish_event (event "e1" "u1") hub).1).0
replay-written_example =
    replay-written hub (event "e1" "u1") missed "u1" "c1" c1-IsConnected refl id_is_trimmed tt
      (refl, (refl, (refl, tt))) (omega arith)

two_are_missed :
    replay "e1" "u1" (publish_all missed (publish_event (event "e1" "u1") hub).1).1
    ≡ envelope_of (event "e2" "u1") ∷ envelope_of (event "e4" " ") ∷ []
unfolding replay replay_from publish_all publish_event remember write_all drop select envelope_of
    trim_space
two_are_missed = refl
