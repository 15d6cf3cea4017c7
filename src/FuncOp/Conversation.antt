-- ===== src/FuncOp/Conversation.antt =====
-- func-operation/internal/dao/conversation_operation.go: the rows of conversation operations and
-- of the executions of their completion tools.
use ai_dandelion.Base.{
  ℕ, ◌+◌, String, Bool, true, false, ◌&&◌, Option, none, some, List, [], ◌∷◌, ◌++◌, ltb,
  if◌then◌else◌, str_eq, any, find_first, update_where,
}
use ai_dandelion.Db.{
  Result, ok, err, not_found, attempt, pure, raise, first, exec, insert, ◌>>=◌, ◌>>◌, transaction,
}
use ai_dandelion.FuncOp.Model.{
  OperationState, running, awaiting_user, needs_continue, completed, blocked, superseded,
  TerminalStatus, terminal_none, terminal_submitted, ConversationOperation, ProgressExecution,
  Tables, FuncAction,
}

abbrev pub operation_is : String → ConversationOperation → Bool
operation_is u o = str_eq o.uuid u

-- function_id, session_id, conversation and user_id
pub record Scope : Type 0 where
  pub function_id : String
  pub session_id : String
  pub conversation : String
  pub user_id : String

abbrev pub in_scope : Scope → ConversationOperation → Bool
in_scope s o =
    str_eq o.function_id s.function_id
    && str_eq o.session_id s.session_id
    && str_eq o.conversation s.conversation
    && str_eq o.user_id s.user_id

-- The states of the lists after IN.
abbrev pub is_active : OperationState → Bool
is_active running = true
is_active awaiting_user = true
is_active needs_continue = true
is_active blocked = true
is_active _ = false

abbrev pub add_operation : ConversationOperation → Tables → Tables
add_operation o t = record t {
  operations = t.operations ++ o ∷ [];
  next_operation_id = t.next_operation_id + 1;
}

abbrev pub numbered : ConversationOperation → Tables → ConversationOperation
numbered o t = record o { id = t.next_operation_id }

-- The unique index on `uuid` may refuse the row.
unfoldable pub create : ConversationOperation → FuncAction ConversationOperation
create o = insert (λ t.
    if any (operation_is o.uuid) t.operations
    then none
    else some (numbered o t, add_operation (numbered o t) t))

unfoldable pub get : String → FuncAction ConversationOperation
get u = first (λ t. find_first (operation_is u) t.operations)

abbrev pick_latest : ConversationOperation → Option ConversationOperation → ConversationOperation
pick_latest o none = o
pick_latest o (some b) = if ltb o.created_at b.created_at then b else o

-- ORDER BY created_at DESC
unfoldable pub latest_in : Scope → List ConversationOperation → Option ConversationOperation
latest_in s [] = none
latest_in s (o ∷ os) =
    let rest = latest_in s os in if in_scope s o then some (pick_latest o rest) else rest

unfoldable pub get_latest : Scope → FuncAction ConversationOperation
get_latest s = first (λ t. latest_in s t.operations)

abbrev pub supersede : ℕ → ConversationOperation → ConversationOperation
supersede now o = record o { state = superseded; updated_at = now; finished_at = now }

abbrev pub active_in : Scope → ConversationOperation → Bool
active_in s o = in_scope s o && is_active o.state

abbrev pub supersede_rows : Scope → ℕ → Tables → Tables
supersede_rows s now t = record t {
  operations = update_where (active_in s) (supersede now) t.operations;
}

unfoldable pub supersede_active : Scope → ℕ → FuncAction (Unit {0})
supersede_active s now = exec (λ t. (tt, supersede_rows s now t))

abbrev pub resumed : ℕ → ConversationOperation → ConversationOperation
resumed now o = record o {
  state = running;
  terminal_status = terminal_none;
  terminal_reason = "";
  finished_at = 0;
  updated_at = now;
}

unfoldable pub resume : String → ℕ → FuncAction (Unit {0})
resume u now =
    exec (λ t.
      (tt, record t { operations = update_where (operation_is u) (resumed now) t.operations }))

abbrev pub finished :
    OperationState
    → TerminalStatus
    → String
    → Option String
    → ℕ
    → ConversationOperation
    → ConversationOperation
finished state status reason none now o = record o {
  state = state;
  terminal_status = status;
  terminal_reason = reason;
  updated_at = now;
  finished_at = now;
}
finished state status reason (some outcome) now o = record o {
  state = state;
  terminal_status = status;
  terminal_reason = reason;
  outcome = outcome;
  updated_at = now;
  finished_at = now;
}

abbrev pub active_named : String → ConversationOperation → Bool
active_named u o = operation_is u o && is_active o.state

abbrev pub finish_rows :
    String → OperationState → TerminalStatus → String → Option String → ℕ → Tables → Tables
finish_rows u state status reason outcome now t = record t {
  operations =
      update_where (active_named u) (finished state status reason outcome now) t.operations;
}

-- `outcome` is `some` where the source's `setOutcome` is true.
unfoldable pub finish :
    String
    → OperationState
    → TerminalStatus
    → String
    → Option String
    → ℕ
    → FuncAction ConversationOperation
finish u state status reason outcome now = do
  exec (λ t. (tt {0}, finish_rows u state status reason outcome now t))
  get u

unfoldable pub finish_if_active :
    String → OperationState → TerminalStatus → String → ℕ → FuncAction ConversationOperation
unfolding finish
finish_if_active u state status reason now = finish u state status reason none now

unfoldable pub complete : String → String → ℕ → FuncAction ConversationOperation
unfolding finish
complete u outcome now = finish u completed terminal_submitted "" (some outcome) now

abbrev pub execution_is : String → ProgressExecution → Bool
execution_is tool e = str_eq e.tool_use_id tool

abbrev pub add_execution : ProgressExecution → Tables → Tables
add_execution e t = record t {
  executions = t.executions ++ record e { id = t.next_execution_id } ∷ [];
  next_execution_id = t.next_execution_id + 1;
}

-- `tool_use_id` has a unique index.
abbrev create_execution : ProgressExecution → FuncAction (Unit {0})
create_execution e = insert (λ t.
    if any (execution_is e.tool_use_id) t.executions then none else some (tt, add_execution e t))

abbrev pub submitted_row : ProgressExecution → ConversationOperation → ConversationOperation
submitted_row e = finished completed terminal_submitted "" (some e.outcome) e.updated_at

abbrev pub submit_rows : String → ProgressExecution → Tables → Tables
submit_rows u e t = record t {
  operations = update_where (operation_is u) (submitted_row e) t.operations;
}

-- What the transaction of `Complete` found: an execution of the same tool use, or the operation
-- that it completed.
pub data Completion : Type 0 where
  cached : ProgressExecution → Completion
  fresh : ConversationOperation → Completion

abbrev complete_new : ProgressExecution → String → Result ProgressExecution → FuncAction Completion
complete_new e u (ok existing) = pure (cached existing)
complete_new e u (err not_found) = do
  create_execution e
  exec (λ t. (tt {0}, submit_rows u e t))
  item ← get u
  pure (fresh item)
complete_new e u (err x) = raise x

abbrev complete_body : ProgressExecution → String → FuncAction Completion
complete_body e u = do
  existing ← attempt (first (λ t. find_first (execution_is e.tool_use_id) t.executions))
  complete_new e u existing

abbrev completed_operation : Completion → FuncAction (ConversationOperation × Bool)
completed_operation (cached existing) = do
  operation ← get existing.operation_id
  pure (operation, true)
completed_operation (fresh operation) = pure (operation, false)

-- `Complete` of the executions: the operation, and whether the tool use was submitted before.
unfoldable pub complete_execution :
    ProgressExecution → String → FuncAction (ConversationOperation × Bool)
complete_execution e u = do
  completion ← transaction (complete_body e u)
  completed_operation completion
