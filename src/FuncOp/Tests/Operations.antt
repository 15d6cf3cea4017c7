-- ===== src/FuncOp/Tests/Operations.antt =====
-- The theorems on conversation operations at concrete inputs.
use ai_dandelion.Base.{
  ◌≡◌, refl, ◌⊎◌, Bool, true, false, none, some, str_eq, ◌+◌, [], ◌∷◌, ◌++◌, count_where,
  update_where, find_first, any, is_empty, trim_space, lower_is, take_runes, rune_count,
}
use ai_dandelion.Db.{ok, exec, first, insert, transaction}
use ai_dandelion.FuncOp.Model.{
  ConversationOperation, ProgressExecution, running, awaiting_user, needs_continue, completed,
}
use ai_dandelion.FuncOp.Conversation.{
  Scope, active_in, supersede, supersede_active, create, get, resume, resumed, numbered,
  operation_is, execution_is, complete_execution, submitted_row,
}
use ai_dandelion.FuncOp.Wording.{tool_matches, compact_text, normalize_conversation}
use ai_dandelion.FuncOp.Progress.{
  ProgressReq, start_new, start_again, new_operation, scope_matches, scope_of_req, end_operation,
  submit_progress, check_progress, settle_progress, record_draft, new_execution,
}
use ai_dandelion.FuncOp.Progress.Starting.{start_new_one_active, start_again_ok, runs_again}
use ai_dandelion.FuncOp.Progress.Ending.{
  completes_with, IsCalm, Untouched, end_operation-Untouched, complete_execution_once,
  submit_progress_ok,
}
use ai_dandelion.FuncOp.Tests.{orders, paused, sample, calm}

abbrev scope : Scope
scope = record { function_id = "f1"; session_id = "s2"; conversation = "technical"; user_id = "u1" }

abbrev second : ConversationOperation
second = numbered (new_operation "o2" orders scope 50) sample

starts : (start_new "o2" orders scope 50 calm).0 ≡ ok second
unfolding start_new supersede_active create exec insert any update_where
starts = refl

start_new_one_active_example :
    (second.state ≡ running)
    × ((start_new "o2" orders scope 50 calm).1.tables.operations
        ≡ update_where (active_in scope) (supersede 50) (paused ∷ []) ++ second ∷ [])
    × (count_where (active_in scope) (start_new "o2" orders scope 50 calm).1.tables.operations ≡ 1)
start_new_one_active_example = start_new_one_active "o2" orders scope 50 second calm starts

resumes : (start_again "o1" scope 50 calm).0 ≡ ok (resumed 50 paused)
unfolding start_again get first resume exec find_first update_where
resumes = refl

start_again_ok_example :
    (before : ConversationOperation) × (find_first (operation_is "o1") sample.operations
      ≡ some before)
    × ((before.user_id ≡ "u1")
        × (before.function_id ≡ "f1")
        × (before.session_id ≡ "s2")
        × (before.conversation ≡ "technical"))
    × ((before.state ≡ awaiting_user) ⊎ (before.state ≡ needs_continue))
    × ((start_again "o1" scope 50 calm).1.tables ≡ record sample {
      operations = update_where (λ x. str_eq x.uuid before.uuid) (runs_again 50) sample.operations;
    })
    × (find_first
          (λ x. str_eq x.uuid before.uuid)
          (start_again "o1" scope 50 calm).1.tables.operations
        ≡ some (resumed 50 paused))
    × ((resumed 50 paused).state ≡ running)
start_again_ok_example = start_again_ok "o1" scope 50 (resumed 50 paused) calm resumes

end_operation-Untouched_example :
    Untouched sample.operations
      (end_operation (ok "u1") "o1" "error" "" 60 calm).1.tables.operations
end_operation-Untouched_example = end_operation-Untouched (ok "u1") "o1" "error" "" 60 calm

abbrev req : ProgressReq
req = record {
  operation_id = "o1";
  function_id = "f1";
  session_id = "s2";
  conversation = "Technical";
  tool_name = "submit_technical_document_draft";
  tool_use_id = "t1";
  summary = "draft";
}

abbrev execution : ProgressExecution
execution = new_execution "x1" "u1" paused req 70

completes : (complete_execution execution "o1" calm).0 ≡ ok (submitted_row execution paused, false)
unfolding complete_execution transaction get first exec insert find_first any update_where
completes = refl

complete_execution_once_example :
    ((seen : Bool)
      → (complete_execution execution "o1" calm).0 ≡ ok (paused, seen)
      → ((seen ≡ false)
          × (find_first (execution_is execution.tool_use_id) sample.executions ≡ none)
          × ((before : ConversationOperation) × (find_first (operation_is "o1") sample.operations
                ≡ some before)
              × (paused ≡ completes_with execution before)
              × ((complete_execution execution "o1" calm).1.tables ≡ record sample {
                operations =
                    update_where (operation_is "o1") (completes_with execution) sample.operations;
                executions =
                    sample.executions ++ record execution { id = sample.next_execution_id } ∷ [];
                next_execution_id = sample.next_execution_id + 1;
              })))
        ⊎ ((seen ≡ true)
            × ((existing : ProgressExecution) × (find_first
                    (execution_is execution.tool_use_id)
                    sample.executions
                  ≡ some existing)
                × ((complete_execution execution "o1" calm).1.tables ≡ sample)
                × (find_first (operation_is existing.operation_id) sample.operations
                    ≡ some paused))))
    × ((existing : ProgressExecution)
        → IsCalm calm
        → find_first (execution_is execution.tool_use_id) sample.executions ≡ some existing
        → find_first (operation_is existing.operation_id) sample.operations ≡ some paused
        → (complete_execution execution "o1" calm).0 ≡ ok (paused, true))
    × (IsCalm calm
        → find_first (execution_is execution.tool_use_id) sample.executions ≡ none
        → find_first (operation_is "o1") sample.operations ≡ some paused
        → (complete_execution execution "o1" calm).0 ≡ ok (completes_with execution paused, false))
complete_execution_once_example = complete_execution_once execution "o1" paused calm

submits :
    (submit_progress (ok "u1") "x1" req 70 calm).0 ≡ ok (submitted_row execution paused, false)
unfolding submit_progress get first check_progress settle_progress complete_execution transaction
    exec insert find_first any update_where record_draft trim_space lower_is normalize_conversation
    compact_text tool_matches take_runes rune_count
submits = refl

submit_progress_ok_example :
    (op : ConversationOperation) × (find_first (operation_is (trim_space "o1")) sample.operations
      ≡ some op)
    × (scope_matches op (scope_of_req "u1" req) ≡ true)
    × (tool_matches (trim_space req.tool_name) op.conversation ≡ true)
    × (is_empty (trim_space "t1") ≡ false)
    × (is_empty (compact_text "draft" 2000) ≡ false)
    × ((submitted_row execution paused).state ≡ completed)
submit_progress_ok_example =
    submit_progress_ok "u1" "x1" req 70 (submitted_row execution paused) false calm submits
