-- ===== src/Gateway/Hub.antt =====
-- inner-gateway/internal/realtime/handler.go and protocol.go: the connections of users, the events
-- that are written to them, the commands that they send, and the runs that these start.
-- A writer is the id of its connection, and what is written is a list of deliveries, in their order:
-- a write that fails is not noticed. The clients are a list, in the order in which the map is
-- ranged over.
pub mod Replay
use Prim.Native.Char.{code}
use ai_dandelion.Base.{
  ℕ, zero, suc, ◌+◌, ◌-◌, ◌*◌, String, Bool, true, false, not, ◌&&◌, ◌||◌, Option, none, some, List,
  [], ◌∷◌, ◌++◌, ◌==◌, ltb, leb, if◌then◌else◌, str_eq, is_empty, trim_space, length, map, any,
  select, count_where, find_first,
}
use ai_dandelion.Db.{Err, msg, Result, ok, err}

pub record Envelope : Type 0 where
  pub protocol_version : ℕ
  pub type_name : String
  pub request_id : String
  pub event_id : String
  pub timestamp : ℕ
  pub payload : String

-- eventbus.Event, as far as it is read; `user_header` is headers["userId"], if there is one.
pub record Event : Type 0 where
  pub id : String
  pub type_name : String
  pub occurred_at : ℕ
  pub correlation_id : String
  pub user_header : Option String
  pub payload : String

pub record HistoryEvent : Type 0 where
  pub envelope : Envelope
  pub target : String

pub record Client : Type 0 where
  pub user_id : String
  pub connection_id : String

pub record AgentRun : Type 0 where
  pub request_id : String
  pub user_id : String

pub record Hub : Type 0 where
  pub clients : List Client
  pub history : List HistoryEvent
  pub runs : List AgentRun

pub record Delivery : Type 0 where
  pub connection_id : String
  pub envelope : Envelope

abbrev pub history_limit : ℕ
history_limit = 256

module _ {ℓ} {A : Type ℓ} where
  unfoldable pub drop : ℕ → List A → List A
  drop zero xs = xs
  drop (suc n) [] = []
  drop (suc n) (x ∷ xs) = drop n xs

abbrev pub target_of : Event → String
target_of e = elim e.user_header [ none ↦ "" | some user ↦ trim_space user ]

unfoldable pub envelope_of : Event → Envelope
envelope_of e = record {
  protocol_version = 1;
  type_name = e.type_name;
  request_id = e.correlation_id;
  event_id = e.id;
  timestamp = e.occurred_at;
  payload = e.payload;
}

abbrev pub history_event_of : Event → HistoryEvent
history_event_of e = record { envelope = envelope_of e; target = target_of e }

abbrev pub is_written_to : String → Client → Bool
is_written_to target c = is_empty target || str_eq c.user_id target

-- The history keeps its last events.
unfoldable pub remember : HistoryEvent → List HistoryEvent → List HistoryEvent
unfolding drop
remember e history =
    let all = history ++ (e ∷ []) in
    if ltb history_limit (length all) then drop (length all - history_limit) all else all

unfoldable pub write_all : Envelope → List Client → List Delivery
write_all e [] = []
write_all e (c ∷ cs) = record { connection_id = c.connection_id; envelope = e } ∷ write_all e cs

unfoldable pub publish_event : Event → Hub → List Delivery × Hub
unfolding remember write_all envelope_of
publish_event e h = (
  write_all (envelope_of e) (select (is_written_to (target_of e)) h.clients),
  record h { history = remember (history_event_of e) h.history },
)

abbrev pub is_client : String → String → Client → Bool
is_client user connection c = str_eq c.user_id user && str_eq c.connection_id connection

unfoldable pub unregister_client : String → String → Hub → Hub
unregister_client user connection h = record h {
  clients = select (λ c. not (is_client user connection c)) h.clients;
}

unfoldable pub register_client : String → String → Hub → Hub
register_client user connection h = record h {
  clients =
      select (λ c. not (is_client user connection c)) h.clients
      ++ (record { user_id = user; connection_id = connection } ∷ []);
}

unfoldable pub is_full : String → Hub → Bool
is_full user h =
    leb 8 (count_where (λ c. str_eq c.user_id user) h.clients) || leb 2000 (length h.clients)

abbrev pub is_for : String → HistoryEvent → Bool
is_for user e = is_empty e.target || str_eq e.target user

-- The loop over the history; `seen` tells whether the cursor has been met.
unfoldable pub replay_from : String → String → Bool → List HistoryEvent → List Envelope
replay_from cursor user seen [] = []
replay_from cursor user seen (e ∷ es) =
    let here = str_eq e.envelope.event_id cursor in
    let rest = replay_from cursor user (seen || here) es in
    if here
    then rest
    else if (seen || is_empty cursor) && is_for user e
    then e.envelope ∷ rest
    else rest

-- What a connection with `lastEventId` is written at its start.
unfoldable pub replay : String → String → Hub → List Envelope
unfolding replay_from
replay raw user h =
    if is_empty (trim_space raw) then [] else replay_from (trim_space raw) user false h.history

-- Commands

unfoldable pub has_code : (ℕ → Bool) → String → Bool
has_code p String.[] = false
has_code p (String.◌∷◌ c s) = p (code c) || has_code p s

abbrev pub is_blank : ℕ → Bool
is_blank c = c == 32 || c == 9 || c == 13 || c == 10

unfoldable pub validate_command : Envelope → Result (Unit {0})
unfolding has_code
validate_command e =
    if not (e.protocol_version == 1)
    then err (msg "unsupported realtime protocol version")
    else if is_empty (trim_space e.type_name)
    then err (msg "realtime command type is required")
    else if has_code is_blank e.type_name
    then err (msg "realtime command type is invalid")
    else if has_code (λ c. c == b'.') e.type_name && is_empty (trim_space e.request_id)
    then err (msg "requestId is required for namespaced commands")
    else ok tt

-- The commands of a connection in the current minute.
pub record Window : Type 0 where
  pub start : ℕ
  pub count : ℕ

abbrev pub minute : ℕ
minute = 60 * 1000000000

unfoldable pub count_command : ℕ → Window → Window
count_command now v =
    if leb (v.start + minute) now
    then record { start = now; count = 1 }
    else record v { count = suc v.count }

abbrev pub is_over : Window → Bool
is_over v = ltb 120 v.count

-- Runs

abbrev pub runs_as : String → AgentRun → Bool
runs_as request r = str_eq r.request_id request

unfoldable pub start_run : String → String → Hub → Result (Unit {0}) × Hub
start_run request user h =
    if any (runs_as request) h.runs
    then (err (msg "requestId is already running"), h)
    else (ok tt, record h { runs = record { request_id = request; user_id = user } ∷ h.runs })

unfoldable pub remove_run : String → Hub → Hub
remove_run request h = record h { runs = select (λ r. not (runs_as request r)) h.runs }

-- Whether the context of the run is cancelled.
unfoldable pub cancel_run : String → String → Hub → Result (Unit {0})
cancel_run request user h = elim (find_first (runs_as request) h.runs) [
  | none ↦ err (msg "run not found")
  | some r ↦ if str_eq r.user_id user then ok tt else err (msg "run not found")
]
