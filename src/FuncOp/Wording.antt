-- ===== src/FuncOp/Wording.antt =====
-- The texts of func-operation/internal/logic/conversation_operation.go: conversations, terminal
-- states, completion tools, and cutting a text.
use ai_dandelion.Base.{
  ℕ, String, Bool, true, false, ◌||◌, Option, none, some, leb, if◌then◌else◌, str_eq, trim_space,
  lower_is, take_runes, rune_count, ◌==◌,
}
use ai_dandelion.FuncOp.Model.{
  Function, OperationState, awaiting_user, needs_continue, blocked, cancelled, TerminalStatus,
  terminal_normal, terminal_max_turns, terminal_cancelled, terminal_error,
}

-- The three conversations of a function; `none` is the empty string that the source uses for any
-- other.
pub data Conversation : Type 0 where
  product technical generation : Conversation

abbrev pub conversation_text : Conversation → String
conversation_text product = "product"
conversation_text technical = "technical"
conversation_text generation = "generation"

unfoldable pub normalize_conversation : String → Option Conversation
normalize_conversation value =
    let v = trim_space value in
    if lower_is v "product"
    then some product
    else if lower_is v "technical"
    then some technical
    else if lower_is v "generation" || lower_is v "code" || lower_is v "code_generation"
    then some generation
    else none

abbrev pub session_id_for : Function → Conversation → String
session_id_for f product = trim_space f.product_session_id
session_id_for f technical = trim_space f.technical_session_id
session_id_for f generation = trim_space f.generation_session_id

unfoldable pub normalize_terminal : String → TerminalStatus
normalize_terminal value =
    let v = trim_space value in
    if lower_is v "max_turns"
    then terminal_max_turns
    else if lower_is v "cancelled"
    then terminal_cancelled
    else if lower_is v "error"
    then terminal_error
    else terminal_normal

unfoldable pub state_for_terminal : TerminalStatus → OperationState
state_for_terminal terminal_max_turns = needs_continue
state_for_terminal terminal_cancelled = cancelled
state_for_terminal terminal_error = blocked
state_for_terminal _ = awaiting_user

abbrev pub can_resume : OperationState → Bool
can_resume awaiting_user = true
can_resume needs_continue = true
can_resume _ = false

abbrev pub tool_for : String → Option String
tool_for c =
    if str_eq c "product"
    then some "submit_product_document_draft"
    else if str_eq c "technical"
    then some "submit_technical_document_draft"
    else if str_eq c "generation"
    then some "submit_generated_app"
    else none

abbrev tool_is : String → Option String → Bool
tool_is tool none = false
tool_is tool (some t) = str_eq tool t

-- `progressToolMatchesConversation`
unfoldable pub tool_matches : String → String → Bool
tool_matches tool c = tool_is tool (tool_for c)

unfoldable pub compact_text : String → ℕ → String
compact_text value limit =
    let v = trim_space value in
    if limit == 0 || leb (rune_count v) limit then v else take_runes limit v
