-- ===== src/Broker/Question.antt =====
-- ai-agent/internal/logic/ask_user_question.go. Decoding of the answers is done by the caller of
-- `submit`: `none` stands for a text that is no JSON object. The answer that is sent has the
-- questions of the pending call, the answers and the response.
pub mod Answers
use ai_dandelion.Base.{
  ℕ, suc, String, Bool, true, false, not, ◌||◌, ◌&&◌, Option, none, some, List, [], ◌∷◌, ◌≡◌,
  if◌then◌else◌, str_eq, is_empty, ◌<◌, ◌==◌, ltb,
}
use ai_dandelion.Db.{Result, ok, err, msg, Err}
use ai_dandelion.Json.{
  Value, nil, of_bool, of_number, of_text, slice, mapping, Elements, no_elements, element, Entries,
  no_entries, entry, get, value_at, element_count, string_value,
}
use ai_dandelion.Broker.State.{
  Event, Phase, emitting, selecting, leaving, Waiter, Broker, register, deliver, move, announce,
  receive, leave, new_broker,
}

-- `options, ok := question["options"].([]any)` with 2 to 4 options
unfoldable pub valid_options : Value → Bool
valid_options (slice os) = not (ltb (element_count os) 2 || ltb 4 (element_count os))
valid_options _ = false

unfoldable pub valid_question : Value → Bool
valid_question (mapping q) =
    not (
      is_empty (string_value (value_at "question" q))
      || is_empty (string_value (value_at "header" q)))
    && valid_options (value_at "options" q)
valid_question _ = false

unfoldable pub all_valid : Elements → Bool
all_valid no_elements = true
all_valid (element v vs) = if valid_question v then all_valid vs else false

unfoldable pub valid_questions : Value → Bool
valid_questions (slice qs) = not (element_count qs == 0 || ltb 4 (element_count qs)) && all_valid qs
valid_questions _ = false

unfoldable pub all_strings : Elements → Bool
all_strings no_elements = true
all_strings (element v vs) = if is_empty (string_value v) then false else all_strings vs

unfoldable pub several_strings : Value → Bool
several_strings (slice vs) = ltb 0 (element_count vs) && all_strings vs
several_strings _ = false

unfoldable pub valid_answer_value : Value → Bool → Bool
valid_answer_value v multi_select =
    if multi_select then several_strings v else not (is_empty (string_value v))

-- `question["multiSelect"] == true`
abbrev pub is_true : Value → Bool
is_true (of_bool b) = b
is_true _ = false

-- The failed type assertions `questions.([]any)` and `raw.(map[string]any)` panic.
pub data Check : Type 0 where
  accepted : Check
  refused : String → Check
  panicked : Check

unfoldable pub valid_answer : Entries → Entries → Bool
valid_answer answers q = elim (get (string_value (value_at "question" q)) answers) [
  | none ↦ false
  | some v ↦ valid_answer_value v (is_true (value_at "multiSelect" q))
]

unfoldable pub check_answers : Elements → Entries → Check
check_answers no_elements answers = accepted
check_answers (element (mapping q) qs) answers =
    let rest = check_answers qs answers in
    if valid_answer answers q then rest else refused (string_value (value_at "question" q))
check_answers (element _ qs) answers = panicked

abbrev check_all : Value → Entries → Check
check_all (slice qs) answers = check_answers qs answers
check_all _ answers = panicked

unfoldable pub validate_answers : Value → Entries → String → Check
validate_answers questions answers response =
    if not (is_empty response) then accepted else check_all questions answers

pub record Reply : Type 0 where
  pub questions : Value
  pub answers : Entries
  pub response : Option String

-- `input` is the map of the request, and `input_json` its JSON.
pub record QuestionRequest : Type 0 where
  pub tool_id : String
  pub tool_name : String
  pub input : Entries
  pub input_json : String

abbrev pub Questions : Type 0
Questions = Broker Reply Value

abbrev pub question_not_pending : Err
question_not_pending = msg "ask user question is no longer pending"

abbrev pub question_event : QuestionRequest → Event
question_event r = record {
  kind = "ask_user_question";
  tool_id = r.tool_id;
  tool_name = r.tool_name;
  tool_title = "";
  tool_description = "";
  tool_input = r.input_json;
}

abbrev pub invalid_input : Err
invalid_input = msg "invalid AskUserQuestion input"

-- Wait as far as its entry in the map.
unfoldable pub wait : String → QuestionRequest → Questions → Result Questions
wait session r b =
    if is_empty r.tool_id
    then err (msg "ask user question tool id is required")
    else elim (get "questions" r.input) [
      | none ↦ err invalid_input
      | some q ↦
          if valid_questions q
          then register (msg "ask user question is already pending") session r.tool_id q
              (question_event r) b
          else err invalid_input
    ]

-- What Submit does: an error that it returns, or a panic, or the new state.
pub data Submission : Type 0 where
  sent : Questions → Submission
  failed : Err → Submission
  crashed : Submission

abbrev pub reply_of : Value → Entries → String → Reply
reply_of q answers response = record {
  questions = q;
  answers = answers;
  response = if is_empty response then none else some response;
}

abbrev conclude : Check → Questions → Submission
conclude accepted b = sent b
conclude (refused key) b = failed (msg key)
conclude panicked b = crashed

unfoldable pub submit_decoded : String → String → Entries → String → Questions → Submission
submit_decoded session tool answers response b = elim (b.pending tool) [
  | none ↦ failed question_not_pending
  | some i ↦
      if str_eq (b.waiters i).session_id session
      then conclude (validate_answers (b.waiters i).question answers response)
          (deliver tool i (reply_of (b.waiters i).question answers response) b)
      else failed question_not_pending
]

unfoldable pub submit : String → String → Option Entries → String → Questions → Submission
submit session tool decoded response b = elim decoded [
  | none ↦ failed (msg "answers must be a JSON object")
  | some answers ↦ submit_decoded session tool answers response b
]

pub data Step : Questions → Questions → Type 0 where
  waits :
      {b b' : Questions} (session : String) (r : QuestionRequest) (h : wait session r b ≡ ok b')
      → Step b b'
  submits :
      {b b' : Questions} (session tool : String) (decoded : Option Entries) (response : String)
      (h : submit session tool decoded response b ≡ sent b')
      → Step b b'
  emits : {b : Questions} (i : ℕ) (h : (b.waiters i).phase ≡ emitting) → Step b (announce i b)
  fails : {b : Questions} (i : ℕ) (h : (b.waiters i).phase ≡ emitting) → Step b (move i leaving b)
  receives :
      {b : Questions} (i : ℕ) (d : Reply) (h : (b.waiters i).phase ≡ selecting)
      (e : (b.waiters i).channel ≡ some d)
      → Step b (receive i d b)
  cancels :
      {b : Questions} (i : ℕ) (h : (b.waiters i).phase ≡ selecting) → Step b (move i leaving b)
  leaves : {b : Questions} (i : ℕ) (h : (b.waiters i).phase ≡ leaving) → Step b (leave i b)

pub data Reachable : Questions → Type 0 where
  started : Reachable (new_broker nil)
  step : {b b' : Questions} (r : Reachable b) (s : Step b b') → Reachable b'
