-- ===== src/Broker/Tests.antt =====
-- The theorems on the brokers at concrete inputs.
use ai_dandelion.Base.{
  ℕ, String, Bool, true, false, none, some, ◌≡◌, ◌≢◌, ◌<◌, ◌⊎◌, refl, is_empty, trim_space, arith,
}
use ai_dandelion.Db.{Result, ok, err}
use ai_dandelion.Json.{
  Value, nil, of_text, slice, mapping, no_elements, element, Entries, no_entries, entry, get,
  value_at, element_count, string_value,
}
use ai_dandelion.Broker.State.{register, remove, deliver, announce, receive, new_broker}
use ai_dandelion.Broker.Permission.{
  Decision, PermissionRequest, Permissions, permission_not_pending,
}
use ai_dandelion.Broker.Permission
use ai_dandelion.Broker.Permission.Answers.{submit_once}
use ai_dandelion.Broker.Question.{
  QuestionRequest, Questions, valid_questions, all_valid, valid_question, valid_options,
  validate_answers, check_answers, valid_answer, valid_answer_value, several_strings, all_strings,
  submit_decoded, sent, crashed, reply_of, Submission,
}
use ai_dandelion.Broker.Question
use ai_dandelion.Broker.Question.Answers.{submit_complete, AllAnswered}

abbrev request : PermissionRequest
request = record {
  tool_id = "t1";
  tool_name = "Bash";
  title = "run";
  description = "";
  input = "{}";
}

abbrev or_new : Result Permissions → Permissions
or_new (ok b) = b
or_new (err e) = new_broker tt

abbrev asked : Permissions
asked = or_new (Permission.wait "s1" request (new_broker tt))

wait_runs : Permission.wait "s1" request (new_broker tt) ≡ ok asked
unfolding Permission.wait register trim_space
wait_runs = refl

abbrev allowed : Permissions
allowed = or_new (Permission.submit "s1" "t1" true " yes" asked)

submit_runs : Permission.submit "s1" "t1" true " yes" asked ≡ ok allowed
unfolding Permission.wait Permission.submit register trim_space
submit_runs = refl

submit_once_example :
    ((i : ℕ)
      → asked.pending "t1" ≡ some i
      → (asked.waiters i).session_id ≡ "s1"
      → (b' : Permissions) × (Permission.submit "s1" "t1" true " yes" asked ≡ ok b'))
    × (((i : ℕ) → asked.pending "t1" ≡ some i → (asked.waiters i).session_id ≢ "s1")
        → Permission.submit "s1" "t1" true " yes" asked ≡ err permission_not_pending)
    × ((b' : Permissions)
        → Permission.submit "s1" "t1" true " yes" asked ≡ ok b'
        → (i : ℕ) × (asked.pending "t1" ≡ some i)
          × ((asked.waiters i).tool_id ≡ "t1")
          × ((asked.waiters i).session_id ≡ "s1")
          × ((asked.waiters i).channel ≡ none)
          × ((b'.waiters i).channel ≡ some (record { allow = true; message = trim_space " yes" }))
          × ((j : ℕ) → j ≢ i → b'.waiters j ≡ asked.waiters j)
          × ((session' : String) (allow' : Bool) (message' : String)
              → Permission.submit session' "t1" allow' message' b' ≡ err permission_not_pending))
submit_once_example =
    submit_once asked "s1" "t1" true " yes"
      (Permission.step Permission.started (Permission.waits "s1" request wait_runs))

-- The first call has its answer, and is about to return.
abbrev first_leaves : Permissions
first_leaves = receive 0 (record { allow = true; message = "yes" }) (announce 0 allowed)

abbrev second_asks : Permissions
second_asks = or_new (Permission.wait "s1" request first_leaves)

second_runs : Permission.wait "s1" request first_leaves ≡ ok second_asks
unfolding Permission.wait Permission.submit register deliver remove trim_space
second_runs = refl

one_call : 0 < first_leaves.next
unfolding Permission.wait Permission.submit register deliver remove trim_space
one_call = omega arith

same_tool : (first_leaves.waiters 0).tool_id ≡ request.tool_id
unfolding Permission.wait Permission.submit register deliver remove trim_space
same_tool = refl

abbrev options : Value
options = slice (element (of_text "a") (element (of_text "b") no_elements))

abbrev questions : Value
questions = slice (
    element
      (mapping (
        entry "question" (of_text "Which?")
          (entry "header" (of_text "Pick") (entry "options" options no_entries))))
      no_elements)

abbrev question : QuestionRequest
question = record {
  tool_id = "t1";
  tool_name = "AskUserQuestion";
  input = entry "questions" questions no_entries;
  input_json = "{}";
}

abbrev or_none : Result Questions → Questions
or_none (ok b) = b
or_none (err e) = new_broker nil

abbrev questioned : Questions
questioned = or_none (Question.wait "s1" question (new_broker nil))

question_runs : Question.wait "s1" question (new_broker nil) ≡ ok questioned
unfolding Question.wait register get valid_questions element_count all_valid valid_question
    string_value value_at valid_options
question_runs = refl

abbrev answers : Entries
answers = entry "Which?" (of_text "a") no_entries

abbrev state_of : Submission → Questions
state_of (sent b) = b
state_of _ = new_broker nil

abbrev answered : Questions
answered = state_of (Question.submit "s1" "t1" (some answers) "" questioned)

answer_runs : Question.submit "s1" "t1" (some answers) "" questioned ≡ sent answered
unfolding Question.submit submit_decoded Question.wait register get valid_questions element_count
    all_valid valid_question string_value value_at valid_options validate_answers check_answers
    valid_answer valid_answer_value
answer_runs = refl

questioned-Reachable : Question.Reachable questioned
questioned-Reachable = Question.step Question.started (Question.waits "s1" question question_runs)

submit_complete_example :
    (i : ℕ) × (given : Entries) × (some answers ≡ some given)
    × (questioned.pending "t1" ≡ some i)
    × ((questioned.waiters i).session_id ≡ "s1")
    × ((is_empty "" ≡ false) ⊎ AllAnswered (questioned.waiters i).question given)
    × ((questioned.waiters i).channel ≡ none)
    × ((answered.waiters i).channel ≡ some (reply_of (questioned.waiters i).question given ""))
    × (answered.pending "t1" ≡ none)
submit_complete_example =
    submit_complete questioned answered "s1" "t1" (some answers) "" questioned-Reachable answer_runs
