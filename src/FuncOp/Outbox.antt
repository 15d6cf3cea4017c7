-- ===== src/FuncOp/Outbox.antt =====
-- func-operation/internal/dao/function_release.go, the type FunctionOutbox: the rows of the outbox.
use ai_dandelion.Base.{
  ℕ, ◌+◌, String, Bool, true, false, ◌&&◌, ◌||◌, Option, none, some, List, [], ◌∷◌, ◌++◌, ltb, leb,
  ◌==◌, if◌then◌else◌, str_eq, is_empty, trim_space, truncate_bytes, any, select, find_last,
  reverse, count_where, update_where, take,
}
use ai_dandelion.Db.{Err, not_found, fault, msg, pure, query, first, exec, insert, ◌>>=◌}
use ai_dandelion.FuncOp.Model.{
  OutboxStatus, pending, processing, done, failed, OutboxEvent, Tables, FuncAction,
}

abbrev pub event_uuid_is : String → OutboxEvent → Bool
event_uuid_is u e = str_eq e.uuid u

abbrev pub event_id_is : ℕ → OutboxEvent → Bool
event_id_is i e = e.id == i

abbrev pub add_event : OutboxEvent → Tables → Tables
add_event e t = record t { outbox = t.outbox ++ e ∷ []; next_outbox_id = t.next_outbox_id + 1 }

abbrev pub new_event : String → OutboxEvent → Tables → OutboxEvent
new_event fresh event t = record event {
  id = t.next_outbox_id;
  uuid = if is_empty event.uuid then fresh else event.uuid;
}

unfoldable pub create : String → OutboxEvent → FuncAction (Unit {0})
create fresh event = insert (λ t.
    let row = new_event fresh event t in
    if any (event_uuid_is row.uuid) t.outbox then none else some (tt, add_event row t))

abbrev pub get_by_release_id : String → String → FuncAction OutboxEvent
get_by_release_id type release =
    first (λ t. find_last (λ e. str_eq e.event_type type && str_eq e.release_id release) t.outbox)

-- A limit that is not positive or above 100 becomes 50. A negative limit is the 0 of the model.
unfoldable pub clamp_limit : ℕ → ℕ
clamp_limit limit = if limit == 0 || ltb 100 limit then 50 else limit

-- ORDER BY id DESC, where the ids rise with the position.
unfoldable pub list_events : ℕ → FuncAction (List OutboxEvent)
list_events limit = query (λ t. take (clamp_limit limit) (reverse t.outbox))

abbrev pub is_failed : OutboxStatus → Bool
is_failed failed = true
is_failed _ = false

unfoldable pub requeue : ℕ → FuncAction (Unit {0})
requeue now = exec (λ t. (
  tt,
  record t {
    outbox =
        update_where (λ e. is_failed e.status)
          (λ e. record e { status = pending; next_attempt_at = now; updated_at = now }) t.outbox;
  },
))

-- 60*1000000 microseconds: how long a claim lasts.
abbrev pub lease : ℕ
lease = 60000000

abbrev pub is_waiting : OutboxStatus → Bool
is_waiting pending = true
is_waiting failed = true
is_waiting _ = false

abbrev pub is_processing : OutboxStatus → Bool
is_processing processing = true
is_processing _ = false

-- status = 'processing' AND updated_at <= now - lease
abbrev pub lease_over : ℕ → OutboxEvent → Bool
lease_over now e = is_processing e.status && leb (e.updated_at + lease) now

-- The WHERE of the SELECT of `ClaimReady`.
unfoldable pub is_ready : ℕ → OutboxEvent → Bool
is_ready now e = (is_waiting e.status && leb e.next_attempt_at now) || lease_over now e

-- The WHERE of its UPDATE, without the id.
abbrev pub is_claimable : ℕ → OutboxEvent → Bool
is_claimable now e = is_waiting e.status || lease_over now e

abbrev pub claim_target : ℕ → ℕ → OutboxEvent → Bool
claim_target now i e = event_id_is i e && is_claimable now e

abbrev pub claimed_row : ℕ → ℕ → OutboxEvent → OutboxEvent
claimed_row now n e = record e { status = processing; attempts = n; updated_at = now }

abbrev pub claim_rows : ℕ → OutboxEvent → Tables → Tables
claim_rows now event t = record t {
  outbox = update_where (claim_target now event.id) (claimed_row now (event.attempts + 1)) t.outbox;
}

abbrev pub claimed_event : OutboxEvent → OutboxEvent
claimed_event event = record event { attempts = event.attempts + 1; status = processing }

-- The body of the loop of `ClaimReady`: the event, if the UPDATE reached exactly one row.
unfoldable pub claim_one : ℕ → OutboxEvent → FuncAction (Option OutboxEvent)
claim_one now event = do
  affected ← exec (λ t. (count_where (claim_target now event.id) t.outbox, claim_rows now event t))
  pure (if affected == 1 then some (claimed_event event) else none)

abbrev pub keep_claimed : Option OutboxEvent → List OutboxEvent → List OutboxEvent
keep_claimed none es = es
keep_claimed (some e) es = e ∷ es

unfoldable pub claim_all : ℕ → List OutboxEvent → FuncAction (List OutboxEvent)
claim_all now [] = pure []
claim_all now (e ∷ es) = do
  claimed ← claim_one now e
  rest ← claim_all now es
  pure (keep_claimed claimed rest)

unfoldable pub claim_ready : ℕ → ℕ → FuncAction (List OutboxEvent)
claim_ready now limit = do
  events ← query (λ t. take (clamp_limit limit) (select (is_ready now) t.outbox))
  claim_all now events

abbrev pub done_row : ℕ → OutboxEvent → OutboxEvent
done_row now e = record e { status = done; last_error = ""; next_attempt_at = 0; updated_at = now }

unfoldable pub mark_done : ℕ → ℕ → FuncAction (Unit {0})
mark_done i now =
    exec (λ t. (tt, record t { outbox = update_where (event_id_is i) (done_row now) t.outbox }))

unfoldable pub mark_done_by_uuid : String → ℕ → FuncAction (Unit {0})
mark_done_by_uuid u now =
    exec (λ t. (tt, record t { outbox = update_where (event_uuid_is u) (done_row now) t.outbox }))

abbrev pub error_text : Err → String
error_text not_found = "record not found"
error_text (fault m) = m
error_text (msg m) = m

abbrev pub failed_row : ℕ → String → ℕ → OutboxEvent → OutboxEvent
failed_row next message now e = record e {
  status = failed;
  last_error = message;
  next_attempt_at = next;
  updated_at = now;
}

-- `message[:1000]` counts bytes; of a character that the cut splits the model keeps nothing.
unfoldable pub mark_retry : ℕ → ℕ → Err → ℕ → FuncAction (Unit {0})
mark_retry i next cause now = exec (λ t. (
  tt,
  record t {
    outbox =
        update_where (event_id_is i)
          (failed_row next (truncate_bytes 1000 (trim_space (error_text cause))) now) t.outbox;
  },
))
