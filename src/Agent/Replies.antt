-- ===== src/Agent/Replies.antt =====
-- What a stream shows: nothing twice, whole tool inputs, and whole texts.
use ai_dandelion.Base.{
  ℕ, String, ◌≡◌, refl, sym, ap, subst, ◌∙◌, true, false, none, some, List, [], ◌∷◌, ◌++◌, map,
  if◌then◌else◌, inl, inr, Bool-cases, str_eq, eq_iff, is_empty, take_runes, rune_count, arith,
}
use Prim.Native.String.{◌++◌ as ◌<>◌}
use text.Mathlib.TextLemmas.{append-nil, append_assoc, nil-append, cons-append}
use ai_dandelion.Json.{
  Entries, no_entries, entry, mapping, of_text, of_number, value_at, get, string_value,
}
use ai_dandelion.Agent.Stream.{
  StreamState, start_block, map_from_any, int_from_any, Event, event, Block, text_block, Message,
  stream_message, assistant_message, user_message, other_message, JsonLibrary, events_from_message,
  events_from_assistant, events_from_stream, content_block_start, content_block_delta,
  content_block_stop, stop_block, input_delta, from_block, from_blocks, trim_prefix, drop_runes,
  pretty_json, shown,
}

module _ (l : JsonLibrary) where
  -- The events of a sequence of messages, and the state after it.
  abbrev pub run : List Message → StreamState → List Event × StreamState
  run [] s = ([], s)
  run (m ∷ ms) s = (
    (events_from_message l m s).0 ++ (run ms (events_from_message l m s).1).0,
    (run ms (events_from_message l m s).1).1,
  )

  start_seen :
      (i : ℕ) (block : Entries) (kind : String) (s : StreamState)
      → s.saw_stream_content ≡ true
      → (start_block i block kind s).1.saw_stream_content ≡ true
  start_seen i block kind s h = ground arith

  delta_seen :
      (raw : Entries) (s : StreamState)
      → s.saw_stream_content ≡ true
      → (content_block_delta raw s).1.saw_stream_content ≡ true
  unfolding content_block_delta input_delta
  delta_seen raw s h = ground arith

  stop_seen :
      (i : ℕ) (kind : String) (s : StreamState)
      → s.saw_stream_content ≡ true
      → (stop_block l i kind s).1.saw_stream_content ≡ true
  unfolding stop_block
  stop_seen i kind s h = ground arith

  content_start_seen :
      (raw : Entries) (s : StreamState)
      → s.saw_stream_content ≡ true
      → (content_block_start raw s).1.saw_stream_content ≡ true
  unfolding content_block_start
  content_start_seen raw s h =
      let block = map_from_any (value_at "content_block" raw) in
      start_seen (int_from_any (value_at "index" raw)) block (string_value (value_at "type" block))
        _ h

  content_stop_seen :
      (raw : Entries) (s : StreamState)
      → s.saw_stream_content ≡ true
      → (content_block_stop l raw s).1.saw_stream_content ≡ true
  unfolding content_block_stop
  content_stop_seen raw s h = stop_seen (int_from_any (value_at "index" raw)) _ _ h

  stream_seen :
      (raw : Entries) (s : StreamState)
      → s.saw_stream_content ≡ true
      → (events_from_stream l raw s).1.saw_stream_content ≡ true
  unfolding events_from_stream
  stream_seen raw s h =
      ground (arith, content_start_seen raw s h, delta_seen raw s h, content_stop_seen raw s h)

  message_seen :
      (m : Message) (s : StreamState)
      → s.saw_stream_content ≡ true
      → (events_from_message l m s).1.saw_stream_content ≡ true
  unfolding events_from_message events_from_assistant
  message_seen (stream_message no_entries) s h = h
  message_seen (stream_message (entry n v es)) s h = stream_seen (entry n v es) s h
  message_seen (assistant_message bs) s h = ground arith
  message_seen (user_message none) s h = h
  message_seen (user_message (some bs)) s h = h
  message_seen other_message s h = h

abbrev pub without_assistants : List Message → List Message
without_assistants [] = []
without_assistants (assistant_message bs ∷ ms) = without_assistants ms
without_assistants (m ∷ ms) = m ∷ without_assistants ms

module _ (l : JsonLibrary) where
  assistant_silent :
      (bs : List Block) (s : StreamState)
      → s.saw_stream_content ≡ true
      → events_from_message l (assistant_message bs) s ≡ ([], s)
  unfolding events_from_message events_from_assistant
  assistant_silent bs s h = ground arith

  run_same :
      (m : Message) (ms ns : List Message) (s : StreamState)
      → run l ms (events_from_message l m s).1 ≡ run l ns (events_from_message l m s).1
      → run l (m ∷ ms) s ≡ run l (m ∷ ns) s
  run_same m ms ns s e =
      ap (λ (p : List Event × StreamState). ((events_from_message l m s).0 ++ p.0, p.1)) e

  -- Once content has been streamed, the assistant messages that repeat it show nothing and change
  -- nothing, in the whole rest of the stream.
  pub run-without_assistants :
      (ms : List Message) (s : StreamState)
      → s.saw_stream_content ≡ true
      → run l ms s ≡ run l (without_assistants ms) s
  run-without_assistants [] s h = refl
  run-without_assistants (assistant_message bs ∷ ms) s h =
      ap (λ (p : List Event × StreamState). (p.0 ++ (run l ms p.1).0, (run l ms p.1).1))
        (assistant_silent bs s h)
      ∙ run-without_assistants ms s h
  run-without_assistants (stream_message raw ∷ ms) s h =
      run_same (stream_message raw) ms (without_assistants ms) s
        (run-without_assistants ms _ (message_seen l (stream_message raw) s h))
  run-without_assistants (user_message u ∷ ms) s h =
      run_same (user_message u) ms (without_assistants ms) s
        (run-without_assistants ms _ (message_seen l (user_message u) s h))
  run-without_assistants (other_message ∷ ms) s h =
      run_same other_message ms (without_assistants ms) s
        (run-without_assistants ms _ (message_seen l other_message s h))

-- The stream events of one tool use: its start, the parts of its input, and its stop.
abbrev pub start_message : ℕ → String → String → Message
start_message i id name = stream_message (
    entry "type" (of_text "content_block_start") (
      entry "index" (of_number i) (
        entry "content_block"
          (mapping (
            entry "type" (of_text "tool_use")
              (entry "id" (of_text id) (entry "name" (of_text name) no_entries))))
          no_entries)))

abbrev pub delta_message : ℕ → String → Message
delta_message i part = stream_message (
    entry "type" (of_text "content_block_delta") (
      entry "index" (of_number i) (
        entry "delta"
          (mapping (
            entry "type" (of_text "input_json_delta")
              (entry "partial_json" (of_text part) no_entries)))
          no_entries)))

abbrev pub stop_message : ℕ → Message
stop_message i =
    stream_message
      (entry "type" (of_text "content_block_stop") (entry "index" (of_number i) no_entries))

abbrev pub rest_of_tool : ℕ → List String → List Message
rest_of_tool i [] = stop_message i ∷ []
rest_of_tool i (part ∷ parts) = delta_message i part ∷ rest_of_tool i parts

abbrev pub joined : List String → String
joined [] = ""
joined (part ∷ parts) = part <> joined parts

abbrev pub delta_events : String → List String → List Event → List Event
delta_events id [] rest = rest
delta_events id (part ∷ parts) rest =
    if is_empty part
    then delta_events id parts rest
    else record (event "tool_delta") { tool_id = id; tool_input = part }
      ∷ delta_events id parts rest

-- A tool use is being streamed at the index, with this input so far.
abbrev Open : ℕ → String → String → StreamState → Type 0
Open i id input s =
    (s.tool_index i ≡ id) × (s.tool_inputs id ≡ some input) × (s.block_types i ≡ "tool_use")

blank : (s : String) → is_empty s ≡ true → s ≡ ""
blank String.[] h = refl
blank (String.◌∷◌ c s) h = absurd (ground arith)

module _ (l : JsonLibrary) (i : ℕ) (id : String) (full : is_empty id ≡ false) where
  start_shown :
      (name : String) (s : StreamState)
      → (events_from_message l (start_message i id name) s).0
        ≡ record (event "tool_start") { tool_id = id; tool_name = name } ∷ []
  unfolding events_from_message events_from_stream content_block_start value_at get string_value
  start_shown name s = ground (arith, full)

  opens :
      (name : String) (s : StreamState)
      → Open i id "" (events_from_message l (start_message i id name) s).1
  unfolding events_from_message events_from_stream content_block_start value_at get string_value
  opens name s = ground (arith, full, eq_iff id id)

  writes :
      (part input : String) (s : StreamState)
      → is_empty part ≡ false
      → Open i id input s
      → ((events_from_message l (delta_message i part) s).0
          ≡ record (event "tool_delta") { tool_id = id; tool_input = part } ∷ [])
        × Open i id (input <> part) (events_from_message l (delta_message i part) s).1
  unfolding events_from_message events_from_stream content_block_delta input_delta value_at get
      string_value
  writes part input s some_text o = ground (arith, full, eq_iff id id)

  skips :
      (part : String) (s : StreamState)
      → is_empty part ≡ true
      → events_from_message l (delta_message i part) s ≡ ([], s)
  unfolding events_from_message events_from_stream content_block_delta input_delta value_at get
      string_value
  skips part s none_left = ground arith

  stops :
      (input : String) (s : StreamState)
      → Open i id input s
      → ((events_from_message l (stop_message i) s).0
          ≡ record (event "tool_stop") { tool_id = id; tool_input = pretty_json l input } ∷ [])
        × ((events_from_message l (stop_message i) s).1.tool_index i ≡ "")
  unfolding events_from_message events_from_stream content_block_stop stop_block value_at get
      string_value
  stops input s o = let (_, _, kind) = o in ground (arith, full, ap (λ k. str_eq k "thinking") kind)

  abbrev stop_event : String → List Event
  stop_event input =
      record (event "tool_stop") { tool_id = id; tool_input = pretty_json l input } ∷ []

  rest_shows :
      (parts : List String) (input : String) (s : StreamState)
      → Open i id input s
      → (run l (rest_of_tool i parts) s).0
        ≡ delta_events id parts (stop_event (input <> joined parts))
  rest_shows [] input s o = rw (append-nil input) (ap (λ es. es ++ []) (stops input s o).0)
  rest_shows (part ∷ parts) input s o = elim (Bool-cases (is_empty part)) [
    | inl none_left ↦
        rw (skips part s none_left, none_left, blank part none_left, nil-append (joined parts))
          (rest_shows parts input s o)
    | inr some_text ↦
        let (shown, o') = writes part input s some_text o in
        let s1 = (events_from_message l (delta_message i part) s).1 in
        rw (some_text, shown, sym (append_assoc input part (joined parts)))
          (ap (λ es. record (event "tool_delta") { tool_id = id; tool_input = part } ∷ es)
            (rest_shows parts (input <> part) s1 o'))
  ]

  -- A tool use that is streamed in parts is shown whole: after its start comes one event for each
  -- part that is not empty, and then the stop, whose input is the indented JSON of all the parts
  -- together, whatever the state was before.
  pub run_tool_use :
      (name : String) (parts : List String) (s : StreamState)
      → (run l (start_message i id name ∷ rest_of_tool i parts) s).0
        ≡ record (event "tool_start") { tool_id = id; tool_name = name }
          ∷ delta_events id parts (
              record (event "tool_stop") { tool_id = id; tool_input = pretty_json l (joined parts) }
              ∷ [])
  run_tool_use name parts s =
      let s1 = (events_from_message l (start_message i id name) s).1 in
      rw (start_shown name s) (
        ap (λ es. record (event "tool_start") { tool_id = id; tool_name = name } ∷ es)
          (rw (sym (nil-append (joined parts))) (rest_shows parts "" s1 (opens name s))))

strip : (p r : String) → take_runes (rune_count p) (p <> r) ≡ p
unfolding take_runes rune_count
strip String.[] r = refl
strip (String.◌∷◌ c p) r = rw (cons-append c p r) (ap (String.◌∷◌ c) (strip p r))

strip_rest : (p r : String) → drop_runes (rune_count p) (p <> r) ≡ r
unfolding drop_runes rune_count
strip_rest String.[] r = nil-append r
strip_rest (String.◌∷◌ c p) r = rw (cons-append c p r) (strip_rest p r)

trim_prefix_append : (p r : String) → trim_prefix (p <> r) p ≡ r
unfolding trim_prefix
trim_prefix_append p r =
    ground (arith, strip_rest p r, (eq_iff (take_runes (rune_count p) (p <> r)) p).1 (strip p r))

-- The text that a list of events adds to the answer.
abbrev pub said : List Event → String
said [] = ""
said (e ∷ es) = if str_eq e.kind "text_delta" then e.text <> said es else said es

-- Each text of an assistant message goes on from the one before it.
abbrev pub Growing : String → List String → Type 0
Growing last [] = Unit
Growing last (t ∷ ts) = (is_empty t ≡ false) × ((more : String) × (t ≡ last <> more)) × Growing t ts

abbrev pub final : String → List String → String
final last [] = last
final last (t ∷ ts) = final t ts

module _ (l : JsonLibrary) where
  said-shown :
      (more : String) (es : List Event) → said (shown l "text_delta" more ++ es) ≡ more <> said es
  said-shown more es = elim (Bool-cases (is_empty more)) [
    | inl none_left ↦ rw (blank more none_left) (sym (nil-append (said es)))
    | inr some_text ↦ rw some_text refl
  ]

  text_block_shown :
      (t : String) (s : StreamState)
      → is_empty t ≡ false
      → from_block l (text_block t) s ≡ (
        shown l "text_delta" (trim_prefix t s.last_assistant_text),
        record s { last_assistant_text = t },
      )
  unfolding from_block
  text_block_shown t s h = rw h refl

  said-from_blocks :
      (ts : List String) (last : String) (s : StreamState)
      → s.last_assistant_text ≡ last
      → Growing last ts
      → last <> said (from_blocks l (map text_block ts) s).0 ≡ final last ts
  unfolding from_blocks
  said-from_blocks [] last s h g = append-nil last
  said-from_blocks (t ∷ ts) last s h (full, (more, grows), g) =
      let s1 = record s { last_assistant_text = t } in
      let rest = (from_blocks l (map text_block ts) s1).0 in
      let trimmed : trim_prefix t s.last_assistant_text ≡ more =
        rw (h, grows) (trim_prefix_append last more) in
      rw
        (
          text_block_shown t s full,
          trimmed,
          said-shown more rest,
          sym (append_assoc last more (said rest)),
          sym grows,
        )
        (said-from_blocks ts t s1 refl g)

  assistant_shown :
      (bs : List Block) (s : StreamState)
      → s.saw_stream_content ≡ false
      → events_from_message l (assistant_message bs) s ≡ from_blocks l bs s
  unfolding events_from_message events_from_assistant
  assistant_shown bs s unseen = ground arith

  -- Before any content has been streamed, the texts of an assistant message that go on from the one
  -- shown before it are shown whole: the text already shown, followed by the text of the new events,
  -- is the last text of the message.
  assistant_texts_shown :
      (ts : List String) (s : StreamState)
      → s.saw_stream_content ≡ false
      → Growing s.last_assistant_text ts
      → s.last_assistant_text
          <> said (events_from_message l (assistant_message (map text_block ts)) s).0
        ≡ final s.last_assistant_text ts
  assistant_texts_shown ts s unseen g =
      subst
        (λ (p : List Event × StreamState).
          s.last_assistant_text <> said p.0 ≡ final s.last_assistant_text ts)
        (sym (assistant_shown (map text_block ts) s unseen))
        (said-from_blocks ts s.last_assistant_text s refl g)
