-- ===== src/Agent/Stream.antt =====
-- toolbox/agent/stream_state.go and helpers.go: the messages of the agent SDK become the events of
-- the stream to the browser. A map of Go from texts is a function here, whose value at a missing key
-- is the zero value; `tool_inputs` tells a missing builder from an empty one.
use ai_dandelion.Base.{
  ℕ, zero, suc, ◌/◌, ◌%◌, String, Bool, true, false, Option, none, some, List, [], ◌∷◌, ◌++◌,
  if◌then◌else◌, ltb, ◌==◌, str_eq, is_empty, trim_space, take_runes, rune_count,
}
use Prim.Native.String.{◌++◌ as ◌<>◌}
use ai_dandelion.Json.{Value, Entries, no_entries, mapping, of_number, nil, value_at, string_value}

pub record StreamState : Type 0 where
  pub saw_stream_content : Bool
  pub last_assistant_text : String
  pub last_thinking_text : String
  pub tool_inputs : String → Option String
  pub tool_names : String → String
  pub tool_index : ℕ → String
  pub block_types : ℕ → String

abbrev pub new_stream_state : StreamState
new_stream_state = record {
  saw_stream_content = false;
  last_assistant_text = "";
  last_thinking_text = "";
  tool_inputs = λ k. none;
  tool_names = λ k. "";
  tool_index = λ i. "";
  block_types = λ i. "";
}

-- The fields of an event that a stream sets.
pub record Event : Type 0 where
  pub kind : String
  pub text : String
  pub tool_id : String
  pub tool_name : String
  pub tool_input : String
  pub is_error : Bool
  pub result_text : String

abbrev pub event : String → Event
event kind = record {
  kind = kind;
  text = "";
  tool_id = "";
  tool_name = "";
  tool_input = "";
  is_error = false;
  result_text = "";
}

abbrev pub text_event : String → String → Event
text_event kind text = record (event kind) { text = text }

-- The blocks of the SDK, and its messages; a user message has blocks, or another content.
pub data Block : Type 0 where
  text_block : String → Block
  thinking_block : String → Block
  tool_use_block : String → String → Value → Block
  tool_result_block : String → Bool → Value → Block
  other_block : Block

pub data Message : Type 0 where
  stream_message : Entries → Message
  assistant_message : List Block → Message
  user_message : Option (List Block) → Message
  other_message : Message

-- github.com/gly-hub/quickgo/json, and fmt.Sprint of a value that it does not print.
pub record JsonLibrary : Type 0 where
  pub marshal_indent : Value → Option String
  pub unmarshal : String → Option Value
  pub sprint : Value → String

-- A number of a float64 that is an index: not negative.
abbrev pub int_from_any : Value → ℕ
int_from_any (of_number n) = n
int_from_any _ = 0

-- `block, _ := value.(map[string]any)`
abbrev pub map_from_any : Value → Entries
map_from_any (mapping es) = es
map_from_any _ = no_entries

abbrev pub first_non_empty : String → String → String
first_non_empty a b = if is_empty a then b else a

abbrev digit : ℕ → String
digit n =
    if n == 0
    then "0"
    else if n == 1
    then "1"
    else if n == 2
    then "2"
    else if n == 3
    then "3"
    else if n == 4
    then "4"
    else if n == 5
    then "5"
    else if n == 6
    then "6"
    else if n == 7
    then "7"
    else if n == 8
    then "8"
    else "9"

-- The decimal digits of a number; the fuel is above their number.
unfoldable pub decimal_from : ℕ → ℕ → String → String
decimal_from zero n acc = acc
decimal_from (suc fuel) n acc =
    let rest = decimal_from fuel (n / 10) (digit (n % 10) <> acc) in
    if ltb n 10 then digit n <> acc else rest

unfoldable pub decimal : ℕ → String
unfolding decimal_from
decimal n = decimal_from (suc n) n ""

unfoldable pub drop_runes : ℕ → String → String
drop_runes zero s = s
drop_runes (suc n) String.[] = ""
drop_runes (suc n) (String.◌∷◌ c s) = drop_runes n s

-- What follows the prefix, or the whole text where it is none.
unfoldable pub trim_prefix : String → String → String
unfolding drop_runes take_runes rune_count
trim_prefix text prefix =
    if str_eq (take_runes (rune_count prefix) text) prefix
    then drop_runes (rune_count prefix) text
    else text

abbrev pub put {ℓ} : {A : Type ℓ} → String → A → (String → A) → String → A
put k v m x = if str_eq x k then v else m x

abbrev pub put_at : ℕ → String → (ℕ → String) → ℕ → String
put_at i v m j = if j == i then v else m j

abbrev Reply : Type 0
Reply = List Event × StreamState

abbrev pub seen : StreamState → StreamState
seen s = record s { saw_stream_content = true }

abbrev pub text_delta : String → StreamState → Reply
text_delta text s = if is_empty text then ([], s) else (text_event "text_delta" text ∷ [], seen s)

abbrev thinking_start : String → StreamState → Reply
thinking_start text s = if is_empty text then (event "thinking_start" ∷ [], seen s) else (
  event "thinking_start" ∷ text_event "thinking_delta" text ∷ [],
  record (seen s) { last_thinking_text = text },
)

abbrev pub tool_start : ℕ → String → String → StreamState → Reply
tool_start index id name s = (
  record (event "tool_start") { tool_id = id; tool_name = name } ∷ [],
  record (seen s) {
    tool_index = put_at index id s.tool_index;
    tool_inputs = put id (some "") s.tool_inputs;
    tool_names = put id name s.tool_names;
  },
)

abbrev pub tool_id_of : ℕ → String → String
tool_id_of index id = if is_empty id then "tool-" <> decimal index else id

abbrev pub start_block : ℕ → Entries → String → StreamState → Reply
start_block index block kind s =
    if str_eq kind "text"
    then text_delta (string_value (value_at "text" block)) s
    else if str_eq kind "thinking"
    then thinking_start (string_value (value_at "thinking" block)) s
    else if str_eq kind "tool_use"
    then tool_start index (tool_id_of index (string_value (value_at "id" block)))
        (string_value (value_at "name" block)) s
    else ([], s)

unfoldable pub content_block_start : Entries → StreamState → Reply
content_block_start raw s =
    let index = int_from_any (value_at "index" raw) in
    let block = map_from_any (value_at "content_block" raw) in
    let kind = string_value (value_at "type" block) in
    start_block index block kind (record s { block_types = put_at index kind s.block_types })

abbrev written : Option String → String → String
written none delta = delta
written (some input) delta = input <> delta

unfoldable pub input_delta : ℕ → String → StreamState → Reply
input_delta index delta s =
    let id = s.tool_index index in
    if is_empty id then ([], s) else if is_empty delta then ([], s) else (
      record (event "tool_delta") { tool_id = id; tool_input = delta } ∷ [],
      record s { tool_inputs = put id (some (written (s.tool_inputs id) delta)) s.tool_inputs },
    )

abbrev thinking_delta : String → StreamState → Reply
thinking_delta text s =
    if is_empty text then ([], s) else (text_event "thinking_delta" text ∷ [], seen s)

unfoldable pub content_block_delta : Entries → StreamState → Reply
unfolding input_delta
content_block_delta raw s =
    let delta = map_from_any (value_at "delta" raw) in
    let kind = string_value (value_at "type" delta) in
    if str_eq kind "text_delta"
    then text_delta (string_value (value_at "text" delta)) s
    else if str_eq kind "thinking_delta"
    then thinking_delta
        (first_non_empty (string_value (value_at "thinking" delta))
          (string_value (value_at "text" delta)))
        s
    else if str_eq kind "input_json_delta"
    then input_delta (int_from_any (value_at "index" raw))
        (string_value (value_at "partial_json" delta)) s
    else ([], s)

module _ (l : JsonLibrary) where
  abbrev marshalled : Option String → Value → String
  marshalled none v = l.sprint v
  marshalled (some text) v = text

  unfoldable pub pretty_any : Value → String
  pretty_any nil = ""
  pretty_any v = marshalled (l.marshal_indent v) v

  abbrev decoded : Option Value → String → String
  decoded none raw = raw
  decoded (some v) raw = pretty_any v

  unfoldable pub pretty_json : String → String
  pretty_json raw = if is_empty (trim_space raw) then "" else decoded (l.unmarshal raw) raw

  abbrev pretty_input : Option String → String
  pretty_input none = ""
  pretty_input (some input) = pretty_json input

  -- The block of an index ends, once its type is known.
  unfoldable pub stop_block : ℕ → String → StreamState → Reply
  stop_block index kind s =
      if str_eq kind "thinking"
      then (event "thinking_stop" ∷ [], record s { last_thinking_text = "" })
      else if is_empty (s.tool_index index)
      then ([], s)
      else (
        record (event "tool_stop") {
          tool_id = s.tool_index index;
          tool_input = pretty_input (s.tool_inputs (s.tool_index index));
        }
            ∷ [],
        record s { tool_index = put_at index "" s.tool_index },
      )

  unfoldable pub content_block_stop : Entries → StreamState → Reply
  content_block_stop raw s =
      let index = int_from_any (value_at "index" raw) in
      stop_block index (s.block_types index)
        (record s { block_types = put_at index "" s.block_types })

  unfoldable pub events_from_stream : Entries → StreamState → Reply
  events_from_stream raw s =
      let kind = string_value (value_at "type" raw) in
      if str_eq kind "content_block_start"
      then content_block_start raw s
      else if str_eq kind "content_block_delta"
      then content_block_delta raw s
      else if str_eq kind "content_block_stop"
      then content_block_stop raw s
      else ([], s)

  abbrev pub shown : String → String → List Event
  shown kind delta = if is_empty delta then [] else text_event kind delta ∷ []

  abbrev tool_stop_of : String → Value → Event
  tool_stop_of id input = record (event "tool_stop") { tool_id = id; tool_input = pretty_any input }

  unfoldable pub from_block : Block → StreamState → Reply
  from_block (text_block text) s = if is_empty text then ([], s) else (
    shown "text_delta" (trim_prefix text s.last_assistant_text),
    record s { last_assistant_text = text },
  )
  from_block (thinking_block text) s = if is_empty text then ([], s) else (
    event "thinking_start"
        ∷ (shown "thinking_delta" (trim_prefix text s.last_thinking_text)
            ++ (event "thinking_stop" ∷ [])),
    record s { last_thinking_text = text },
  )
  from_block (tool_use_block id name input) s = (
    record (event "tool_start") { tool_id = id; tool_name = name; tool_input = pretty_any input }
        ∷ tool_stop_of id input
        ∷ [],
    record s { tool_names = put id name s.tool_names },
  )
  from_block _ s = ([], s)

  unfoldable pub from_blocks : List Block → StreamState → Reply
  from_blocks [] s = ([], s)
  from_blocks (b ∷ bs) s = (
    (from_block b s).0 ++ (from_blocks bs (from_block b s).1).0,
    (from_blocks bs (from_block b s).1).1,
  )

  unfoldable pub events_from_assistant : List Block → StreamState → Reply
  events_from_assistant bs s = if s.saw_stream_content then ([], s) else from_blocks bs s

  unfoldable pub results : List Block → StreamState → List Event
  results [] s = []
  results (tool_result_block id failed content ∷ bs) s =
      record (event "tool_result") {
        tool_id = id;
        tool_name = s.tool_names id;
        is_error = failed;
        result_text = pretty_any content;
      }
      ∷ results bs s
  results (_ ∷ bs) s = results bs s

  unfoldable pub events_from_message : Message → StreamState → Reply
  events_from_message (stream_message no_entries) s = ([], s)
  events_from_message (stream_message raw) s = events_from_stream raw s
  events_from_message (assistant_message bs) s = events_from_assistant bs s
  events_from_message (user_message none) s = ([], s)
  events_from_message (user_message (some bs)) s = (results bs s, s)
  events_from_message other_message s = ([], s)
