-- ===== src/FuncOp/Delivery.antt =====
-- func-operation/internal/logic/outbox.go, outbox_management.go, and the parts of release.go that
-- record and deliver events: the processor of the outbox.
pub mod Rows
pub mod Claims
pub mod Outcome
pub mod Durable
use ai_dandelion.Base.{
  ℕ, zero, ◌+◌, ◌*◌, String, Bool, true, false, not, ◌&&◌, ◌||◌, Option, none, some, List, [], ◌∷◌,
  if◌then◌else◌, str_eq, is_empty, trim_space, length, find_first,
}
use ai_dandelion.Db.{
  Err, Result, ok, err, not_found, msg, attempt, pure, raise, at_time, first, remote, ◌>>=◌, ◌>>◌,
}
use ai_dandelion.FuncOp.Model.{
  OutboxEvent, Payload, version_published, unpublished, menu_status, other_json, Function, Tables,
  Effect, event_sent, menu_deleted, menu_synced, menu_hidden, FuncAction,
}
use ai_dandelion.FuncOp.Outbox.{
  create, get_by_release_id, requeue, claim_ready, mark_done, mark_done_by_uuid, mark_retry,
}
use ai_dandelion.FuncOp.Publishing.{pending_event, version_published_type, unpublished_type}

-- json.Unmarshal into a payload with a functionId: `none` is its error.
abbrev pub payload_function_id : Payload → Option String
payload_function_id (version_published f _ _ _ _) = some f
payload_function_id (unpublished f _ _) = some f
payload_function_id (menu_status _) = some ""
payload_function_id (other_json _) = none

abbrev pub with_function_id : String → Payload → Payload
with_function_id f (version_published _ name version release at) =
    version_published f name version release at
with_function_id f (unpublished _ name at) = unpublished f name at
with_function_id f p = p

-- The status of a menu.sync payload, which is empty where json.Unmarshal failed.
abbrev pub payload_status : Payload → String
payload_status (menu_status s) = s
payload_status _ = ""

-- The two cases of `publishFunctionRealtimeEvent` differ only in the texts of their errors.
abbrev decode_error : String → Err
decode_error type =
    if str_eq type version_published_type
    then msg "decode function release event"
    else msg "decode function unpublish event"

abbrev no_function_error : String → Err
no_function_error type =
    if str_eq type version_published_type
    then msg "function release event functionId is required"
    else msg "function unpublish event functionId is required"

abbrev send_decoded : String → Payload → Option String → FuncAction (Unit {0})
send_decoded type payload none = raise (decode_error type)
send_decoded type payload (some f) =
    if is_empty (trim_space f)
    then raise (no_function_error type)
    else remote (event_sent type (trim_space f) (with_function_id (trim_space f) payload)) tt

abbrev send_event : Bool → OutboxEvent → FuncAction (Unit {0})
send_event bus event =
    if not bus
    then raise (msg "function release realtime event bus is unavailable")
    else send_decoded event.event_type event.payload (payload_function_id event.payload)

-- The types that `publishFunctionRealtimeEvent` handles.
abbrev pub is_realtime : OutboxEvent → Bool
is_realtime event =
    str_eq event.event_type version_published_type || str_eq event.event_type unpublished_type

abbrev sync_menu : String → Result Function → FuncAction (Unit {0})
sync_menu status (err not_found) = pure tt
sync_menu status (err e) = raise e
sync_menu status (ok function) =
    if str_eq (trim_space status) "published"
    then remote (menu_synced function.uuid function.name function.menu_parent_id) tt
    else remote (menu_hidden function.uuid) tt

abbrev deliver_sync : OutboxEvent → FuncAction (Unit {0})
deliver_sync event = do
  function ← attempt (first (λ t. find_first (λ x. str_eq x.uuid event.function_id) t.functions))
  sync_menu (payload_status event.payload) function

-- `bus` says whether the processor has an event bus.
unfoldable pub deliver : Bool → OutboxEvent → FuncAction (Unit {0})
deliver bus event =
    if is_realtime event
    then send_event bus event
    else if str_eq event.event_type "release.published"
    then pure tt
    else if str_eq event.event_type "menu.delete"
    then remote (menu_deleted event.function_id) tt
    else if str_eq event.event_type "menu.sync"
    then deliver_sync event
    else raise (msg "unsupported outbox event type")

-- int64(event.Attempts) * 5 * 1000000
abbrev pub backoff : OutboxEvent → ℕ
backoff event = event.attempts * 5 * 1000000

-- What follows the delivery of a claimed event; an error of MarkRetry is dropped.
abbrev settle : ℕ → OutboxEvent → Result (Unit {0}) → FuncAction (Unit {0})
settle now event (err cause) = do
  attempt (mark_retry event.id (now + backoff event) cause now)
  pure tt
settle now event (ok x) = mark_done event.id now

-- The body of the loop of `ProcessReady`.
unfoldable pub process_one : Bool → ℕ → OutboxEvent → FuncAction (Unit {0})
process_one bus now event = do delivered ← attempt (deliver bus event); settle now event delivered

unfoldable pub process_all : Bool → ℕ → List OutboxEvent → FuncAction (Unit {0})
process_all bus now [] = pure tt
process_all bus now (e ∷ es) = do process_one bus now e; process_all bus now es

-- `configured` is the nil check of the processor and its table.
unfoldable pub process_ready : Bool → Bool → ℕ → ℕ → FuncAction ℕ
process_ready configured bus now limit =
    if not configured
    then raise (msg "outbox processor is not configured")
    else do events ← claim_ready now limit; process_all bus now events; pure (length events)

-- `Replay`: `allowed` is the answer of the authorizer.
unfoldable pub replay : Result (Unit {0}) → Bool → Bool → (ℕ → ℕ) → ℕ → FuncAction ℕ
replay (err e) configured bus clock limit = raise e
replay (ok x) configured bus clock limit = do
  at_time clock requeue
  at_time clock (λ now. process_ready configured bus now limit)

abbrev done_if_named : String → ℕ → FuncAction (Unit {0})
done_if_named u now = if is_empty u then pure tt else mark_done_by_uuid u now

abbrev mark_if_sent : OutboxEvent → (ℕ → ℕ) → Result (Unit {0}) → FuncAction (Unit {0})
mark_if_sent event clock (err e) = pure tt
mark_if_sent event clock (ok x) = do attempt (at_time clock (done_if_named event.uuid)); pure tt

-- `tryDeliverRealtimeEvent`. An event of another type is not handled and has no error, and is
-- marked done too.
unfoldable pub try_deliver : Bool → (ℕ → ℕ) → OutboxEvent → FuncAction (Unit {0})
try_deliver bus clock event = if not bus then pure tt else do
  sent ← attempt (if is_realtime event then send_event bus event else pure tt)
  mark_if_sent event clock sent

abbrev deliver_found : Bool → (ℕ → ℕ) → Result OutboxEvent → FuncAction (Unit {0})
deliver_found bus clock (err e) = pure tt
deliver_found bus clock (ok event) = try_deliver bus clock event

-- `DeliverFunctionPublished`
unfoldable pub deliver_function_published : Bool → Bool → (ℕ → ℕ) → String → FuncAction (Unit {0})
deliver_function_published has_outbox bus clock release = if not has_outbox then pure tt else do
  found ← attempt (get_by_release_id version_published_type release)
  deliver_found bus clock found

abbrev unpublished_event : Function → ℕ → OutboxEvent
unpublished_event function now =
    pending_event function.uuid function.active_release_id unpublished_type
      (unpublished function.uuid function.name now) now

-- `RecordFunctionUnpublished`; the create gives the event its uuid.
unfoldable pub record_function_unpublished :
    Bool → Bool → (ℕ → ℕ) → ℕ → String → Function → FuncAction (Unit {0})
record_function_unpublished has_outbox bus clock now fresh function =
    if not has_outbox then raise (msg "function release outbox is not configured") else do
      create fresh (unpublished_event function now)
      try_deliver bus clock (record (unpublished_event function now) { uuid = fresh })

-- `RecordEvent`, which drops every error.
unfoldable pub record_event :
    Bool → String → String → String → String → Payload → ℕ → FuncAction (Unit {0})
record_event has_outbox fresh f release type payload now =
    if not has_outbox
    then pure tt
    else do attempt (create fresh (pending_event f release type payload now)); pure tt
