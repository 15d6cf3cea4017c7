-- ===== src/Broker/State.antt =====
-- What the two brokers of ai-agent/internal/logic share: the map of pending calls, under its lock,
-- and the calls of Wait, each with its channel of capacity 1. A call is known by a number, which
-- stands for the address of its record; `D` is what the channel carries, and `Q` what the record
-- keeps of the request.
use ai_dandelion.Base.{
  ℕ, suc, String, Option, none, some, List, [], ◌∷◌, if◌then◌else◌, ◌==◌, str_eq,
}
use ai_dandelion.Db.{Result, ok, err, Err}

-- toolbox/agent/types.go: the fields of an event that the brokers set.
pub record Event : Type 0 where
  pub kind : String
  pub tool_id : String
  pub tool_name : String
  pub tool_title : String
  pub tool_description : String
  pub tool_input : String

-- Where a call of Wait stands: before `emit`, in the `select`, at the deferred `remove`, returned.
pub data Phase : Type 0 where
  emitting : Phase
  selecting : Phase
  leaving : Phase
  returned : Phase

pub record Waiter (D Q : Type 0) : Type 0 where
  pub session_id : String
  pub tool_id : String
  pub question : Q
  pub event : Event
  pub channel : Option D
  pub phase : Phase
  pub answer : Option D

pub record Broker (D Q : Type 0) : Type 0 where
  pub pending : String → Option ℕ
  pub waiters : ℕ → Waiter D Q
  pub next : ℕ
  pub emitted : List Event

module _ {D Q : Type 0} where
  abbrev pub set_waiter : ℕ → Waiter D Q → Broker D Q → Broker D Q
  set_waiter i x b = record b { waiters = λ j. if j == i then x else b.waiters j }

  abbrev pub new_waiter : String → String → Q → Event → Waiter D Q
  new_waiter session tool q e = record {
    session_id = session;
    tool_id = tool;
    question = q;
    event = e;
    channel = none;
    phase = emitting;
    answer = none;
  }

  -- The entry of a new call, or the error of an id that is pending.
  unfoldable pub register : Err → String → String → Q → Event → Broker D Q → Result (Broker D Q)
  register already session tool q e b = elim (b.pending tool) [
    | some _ ↦ err already
    | none ↦ ok (record b {
      pending = λ t. if str_eq t tool then some b.next else b.pending t;
      waiters = λ j. if j == b.next then new_waiter session tool q e else b.waiters j;
      next = suc b.next;
    })
  ]

  unfoldable pub remove : String → Broker D Q → Broker D Q
  remove tool b = record b { pending = λ t. if str_eq t tool then none else b.pending t }

  -- The entry is deleted, and the value is sent to its channel.
  unfoldable pub deliver : String → ℕ → D → Broker D Q → Broker D Q
  unfolding remove
  deliver tool i d b = remove tool (set_waiter i (record (b.waiters i) { channel = some d }) b)

  abbrev pub move : ℕ → Phase → Broker D Q → Broker D Q
  move i p b = set_waiter i (record (b.waiters i) { phase = p }) b

  -- `emit` has accepted the event of the call.
  abbrev pub announce : ℕ → Broker D Q → Broker D Q
  announce i b = move i selecting (record b { emitted = (b.waiters i).event ∷ b.emitted })

  -- `decision := <-pending.decisionCh`
  abbrev pub receive : ℕ → D → Broker D Q → Broker D Q
  receive i d b =
      set_waiter i (record (b.waiters i) { channel = none; phase = leaving; answer = some d }) b

  -- The deferred `remove` of a call, by the id of its tool.
  abbrev pub leave : ℕ → Broker D Q → Broker D Q
  leave i b = move i returned (remove (b.waiters i).tool_id b)

  abbrev pub no_waiter : Q → Waiter D Q
  no_waiter q = record {
    session_id = "";
    tool_id = "";
    question = q;
    event = record {
      kind = "";
      tool_id = "";
      tool_name = "";
      tool_title = "";
      tool_description = "";
      tool_input = "";
    };
    channel = none;
    phase = returned;
    answer = none;
  }

  -- The broker of NewToolPermissionBroker and NewAskUserQuestionBroker; `q` fills the numbers not
  -- in use.
  abbrev pub new_broker : Q → Broker D Q
  new_broker q = record { pending = λ t. none; waiters = λ i. no_waiter q; next = 0; emitted = [] }
