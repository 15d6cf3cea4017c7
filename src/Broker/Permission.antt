-- ===== src/Broker/Permission.antt =====
-- ai-agent/internal/logic/tool_permission.go. Wait is cut at the places where it can be
-- interrupted; json.Marshal of the input is done by the caller of `wait`, and its failure is a step.
pub mod Answers
use ai_dandelion.Base.{
  ℕ, suc, String, Bool, true, false, Option, none, some, List, [], ◌∷◌, ◌≡◌, if◌then◌else◌, str_eq,
  is_empty, trim_space, ◌<◌,
}
use ai_dandelion.Db.{Result, ok, err, msg, Err}
use ai_dandelion.Broker.State.{
  Event, Phase, emitting, selecting, leaving, returned, Waiter, Broker, register, deliver, move,
  announce, receive, leave, new_broker,
}

-- `UpdatedInput` is never set by the broker.
pub record Decision : Type 0 where
  pub allow : Bool
  pub message : String

-- `input` is the JSON of the input.
pub record PermissionRequest : Type 0 where
  pub tool_id : String
  pub tool_name : String
  pub title : String
  pub description : String
  pub input : String

abbrev pub Permissions : Type 0
Permissions = Broker Decision Unit

abbrev pub permission_not_pending : Err
permission_not_pending = msg "tool permission request is no longer pending"

abbrev pub permission_event : PermissionRequest → Event
permission_event r = record {
  kind = "tool_permission_request";
  tool_id = r.tool_id;
  tool_name = r.tool_name;
  tool_title = r.title;
  tool_description = r.description;
  tool_input = r.input;
}

-- Wait as far as its entry in the map.
unfoldable pub wait : String → PermissionRequest → Permissions → Result Permissions
wait session r b =
    if is_empty (trim_space r.tool_id)
    then err (msg "tool permission id is required")
    else register (msg "tool permission request is already pending") session r.tool_id tt
        (permission_event r) b

unfoldable pub submit : String → String → Bool → String → Permissions → Result Permissions
submit session tool allow message b = elim (b.pending tool) [
  | none ↦ err permission_not_pending
  | some i ↦
      if str_eq (b.waiters i).session_id session
      then ok (deliver tool i (record { allow = allow; message = trim_space message }) b)
      else err permission_not_pending
]

-- One step of the broker: a call begins, goes on, is answered or cancelled, or returns.
pub data Step : Permissions → Permissions → Type 0 where
  waits :
      {b b' : Permissions} (session : String) (r : PermissionRequest) (h : wait session r b ≡ ok b')
      → Step b b'
  submits :
      {b b' : Permissions} (session tool : String) (allow : Bool) (message : String)
      (h : submit session tool allow message b ≡ ok b')
      → Step b b'
  emits : {b : Permissions} (i : ℕ) (h : (b.waiters i).phase ≡ emitting) → Step b (announce i b)
  fails : {b : Permissions} (i : ℕ) (h : (b.waiters i).phase ≡ emitting) → Step b (move i leaving b)
  receives :
      {b : Permissions} (i : ℕ) (d : Decision) (h : (b.waiters i).phase ≡ selecting)
      (e : (b.waiters i).channel ≡ some d)
      → Step b (receive i d b)
  cancels :
      {b : Permissions} (i : ℕ) (h : (b.waiters i).phase ≡ selecting) → Step b (move i leaving b)
  leaves : {b : Permissions} (i : ℕ) (h : (b.waiters i).phase ≡ leaving) → Step b (leave i b)

pub data Reachable : Permissions → Type 0 where
  started : Reachable (new_broker tt)
  step : {b b' : Permissions} (r : Reachable b) (s : Step b b') → Reachable b'
