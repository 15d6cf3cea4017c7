-- ===== src/FuncOp/Progress.antt =====
-- func-operation/internal/logic/conversation_operation.go: starting, resuming, finishing and
-- completing the operation of a conversation.
pub mod Starting
pub mod Ending
use ai_dandelion.Base.{
  ℕ, zero, String, Bool, true, false, not, ◌&&◌, ◌||◌, Option, none, some, List, [], ◌∷◌, leb,
  if◌then◌else◌, str_eq, is_empty, trim_space, lower_is, take_runes, rune_count, find_first,
  update_where, ◌==◌,
}
use ai_dandelion.Db.{
  Err, Result, ok, err, not_found, msg, attempt, pure, raise, lift, first, exec, ◌>>=◌, ◌>>◌,
}
use ai_dandelion.FuncOp.Model.{
  Function, OperationState, running, awaiting_user, needs_continue, completed, blocked, cancelled,
  TerminalStatus, terminal_none, terminal_normal, terminal_max_turns, terminal_cancelled,
  terminal_error, ConversationOperation, ProgressExecution, Tables, FuncAction,
}
use ai_dandelion.FuncOp.Wording.{
  Conversation, conversation_text, normalize_conversation, session_id_for, normalize_terminal,
  state_for_terminal, can_resume, tool_matches, compact_text,
}
use ai_dandelion.FuncOp.Conversation.{
  Scope, create, get, get_latest, supersede_active, resume, finish_if_active, complete_execution,
}

abbrev pub scope_matches : ConversationOperation → Scope → Bool
scope_matches o s =
    str_eq o.user_id s.user_id
    && str_eq o.function_id s.function_id
    && str_eq o.session_id s.session_id
    && str_eq o.conversation s.conversation

-- Early return of an error unless a test holds.
abbrev require : Bool → Err → FuncAction (Unit {0})
require b e w = if b then (ok tt, w) else (err e, w)

-- `validateOperationScope`
abbrev validate_scope : ConversationOperation → Scope → FuncAction (Unit {0})
validate_scope o s =
    require (scope_matches o s)
      (msg "conversation operation scope does not match the current request")

abbrev get_function : String → FuncAction Function
get_function f = first (λ t. find_first (λ x. str_eq x.uuid f) t.functions)

abbrev scope_of : String → Function → Option Conversation → FuncAction (Function × Scope)
scope_of user function none = raise (msg "unsupported conversation")
scope_of user function (some c) =
    if is_empty (session_id_for function c)
    then raise (msg "function conversation session is not ready")
    else pure (
      function,
      record {
        function_id = function.uuid;
        session_id = session_id_for function c;
        conversation = conversation_text c;
        user_id = user;
      },
    )

-- `resolveScope`, with the user added to the scope.
unfoldable pub resolve_scope : String → String → String → FuncAction (Function × Scope)
resolve_scope user id conversation = do
  function ← get_function (trim_space id)
  scope_of user function (normalize_conversation conversation)

abbrev pub baseline_of : Function → List ℕ
baseline_of f =
    f.function_version ∷ f.product_doc_version ∷ f.product_draft_version ∷ f.technical_doc_version
    ∷ f.technical_draft_version ∷ f.code_version ∷ f.code_draft_version ∷ []

abbrev pub new_operation : String → Function → Scope → ℕ → ConversationOperation
new_operation uuid f s now = record {
  id = 0;
  uuid = uuid;
  function_id = s.function_id;
  session_id = s.session_id;
  conversation = s.conversation;
  user_id = s.user_id;
  state = running;
  baseline = baseline_of f;
  terminal_status = terminal_none;
  terminal_reason = "";
  outcome = "";
  created_at = now;
  updated_at = now;
  finished_at = 0;
}

-- `Start` for a request that names an operation.
unfoldable pub start_again : String → Scope → ℕ → FuncAction ConversationOperation
start_again id s now = do
  operation ← get id
  validate_scope operation s
  require (can_resume operation.state) (msg "conversation operation is not resumable")
  resume operation.uuid now
  get operation.uuid

-- `Start` for a request that names none.
unfoldable pub start_new : String → Function → Scope → ℕ → FuncAction ConversationOperation
start_new uuid f s now = do supersede_active s now; create (new_operation uuid f s now)

abbrev start_in : String → String → ℕ → Function × Scope → FuncAction ConversationOperation
start_in uuid operation_id now (f, s) =
    if is_empty operation_id then start_new uuid f s now else start_again operation_id s now

-- `allowed` is the answer of the authorizer, `user` of authctx.RequireUserID.
unfoldable pub start :
    Result (Unit {0})
    → Result String
    → String
    → String
    → String
    → String
    → ℕ
    → FuncAction ConversationOperation
start allowed user uuid id conversation operation_id now = do
  lift allowed
  user_id ← lift user
  resolved ← resolve_scope user_id id conversation
  start_in uuid (trim_space operation_id) now resolved

abbrev latest_or_none : Result ConversationOperation → FuncAction (Option ConversationOperation)
latest_or_none (ok o) = pure (some o)
latest_or_none (err not_found) = pure none
latest_or_none (err e) = raise e

unfoldable pub find_latest :
    Result (Unit {0}) → Result String → String → String → FuncAction (Option ConversationOperation)
find_latest allowed user id conversation = do
  lift allowed
  user_id ← lift user
  resolved ← resolve_scope user_id id conversation
  found ← attempt (get_latest resolved.1)
  latest_or_none found

unfoldable pub finish_owned :
    String → String → String → ℕ → ConversationOperation → FuncAction ConversationOperation
finish_owned user status reason now operation =
    if str_eq (trim_space operation.user_id) user
    then finish_if_active operation.uuid (state_for_terminal (normalize_terminal status))
        (normalize_terminal status) (compact_text reason 1000) now
    else raise (msg "conversation operation does not belong to the current user")

-- `Finish`
unfoldable pub end_operation :
    Result String → String → String → String → ℕ → FuncAction ConversationOperation
end_operation user id status reason now = do
  user_id ← lift user
  operation ← get (trim_space id)
  finish_owned user_id status reason now operation

-- The columns that `functions.Update` writes.
abbrev pub update_function : Function → Function → Function
update_function f row = record f {
  id = row.id;
  uuid = row.uuid;
  doc_technical_stale = row.doc_technical_stale;
}

abbrev store_function : Function → FuncAction (Unit {0})
store_function f = exec (λ t.
    (tt, record t { functions = update_where (λ x. x.id == f.id) (update_function f) t.functions }))

abbrev pub with_draft_operation : String → String → Function → Function
with_draft_operation conversation operation f =
    if str_eq conversation "technical"
    then record f { technical_draft_operation_id = operation }
    else record f { code_draft_operation_id = operation }

unfoldable pub record_draft : ConversationOperation → ℕ → FuncAction (Unit {0})
record_draft operation now =
    if not (str_eq operation.conversation "technical" || str_eq operation.conversation "generation")
    then pure tt
    else do
      f ← get_function operation.function_id
      store_function (record (with_draft_operation operation.conversation operation.uuid f) {
        updated_at = now;
      })

abbrev is_completed : OperationState → Bool
is_completed completed = true
is_completed _ = false

-- The request of `SubmitProgress`.
pub record ProgressReq : Type 0 where
  pub operation_id : String
  pub function_id : String
  pub session_id : String
  pub conversation : String
  pub tool_name : String
  pub tool_use_id : String
  pub summary : String

abbrev conversation_or_empty : Option Conversation → String
conversation_or_empty none = ""
conversation_or_empty (some c) = conversation_text c

abbrev pub scope_of_req : String → ProgressReq → Scope
scope_of_req user req = record {
  function_id = trim_space req.function_id;
  session_id = trim_space req.session_id;
  conversation = conversation_or_empty (normalize_conversation req.conversation);
  user_id = user;
}

abbrev pub new_execution :
    String → String → ConversationOperation → ProgressReq → ℕ → ProgressExecution
new_execution uuid user operation req now = record {
  id = 0;
  uuid = uuid;
  operation_id = operation.uuid;
  tool_name = trim_space req.tool_name;
  tool_use_id = trim_space req.tool_use_id;
  user_id = user;
  outcome = compact_text req.summary 2000;
  created_at = now;
  updated_at = now;
}

-- The checks of `SubmitProgress` before it writes.
unfoldable pub check_progress : String → ConversationOperation → ProgressReq → FuncAction (Unit {0})
check_progress user operation req = do
  validate_scope operation (scope_of_req user req)
  require (tool_matches (trim_space req.tool_name) operation.conversation)
      (msg "tool is not allowed for the conversation")
  require (not (is_empty (trim_space req.tool_use_id))) (msg "tool use id is required")
  require (not (is_empty (compact_text req.summary 2000))) (msg "completion summary is required")

unfoldable pub settle_progress :
    ℕ → ConversationOperation × Bool → FuncAction (ConversationOperation × Bool)
settle_progress now (operation, before) = do
  require (is_completed operation.state) (msg "conversation operation is no longer active")
  record_draft operation now
  pure (operation, before)

unfoldable pub submit_progress :
    Result String → String → ProgressReq → ℕ → FuncAction (ConversationOperation × Bool)
submit_progress user uuid req now = do
  user_id ← lift user
  operation ← get (trim_space req.operation_id)
  check_progress user_id operation req
  submitted ← complete_execution (new_execution uuid user_id operation req now) operation.uuid
  settle_progress now submitted
