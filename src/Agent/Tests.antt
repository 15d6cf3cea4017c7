-- ===== src/Agent/Tests.antt =====
-- The theorems on the stream at concrete inputs.
use ai_dandelion.Base.{String, ◌≡◌, refl, some, List, [], ◌∷◌}
use ai_dandelion.Json.{of_text}
use ai_dandelion.Agent.Stream.{
  new_stream_state, seen, event, text_block, Message, assistant_message, other_message, JsonLibrary,
  pretty_json, decimal, decimal_from,
}
use ai_dandelion.Agent.Replies.{
  run, run-without_assistants, start_message, rest_of_tool, joined, delta_events, run_tool_use,
}

-- A library that prints nothing and reads every text as a string.
abbrev plain : JsonLibrary
plain = record {
  marshal_indent = λ v. some "{}";
  unmarshal = λ s. some (of_text s);
  sprint = λ v. "?";
}

decimal_105 : decimal 105 ≡ "105"
unfolding decimal decimal_from
decimal_105 = refl

abbrev later : List Message
later = assistant_message (text_block "twice" ∷ []) ∷ other_message ∷ []

run-without_assistants_example :
    run plain later (seen new_stream_state) ≡ run plain (other_message ∷ []) (seen new_stream_state)
run-without_assistants_example = run-without_assistants plain later (seen new_stream_state) refl

abbrev parts : List String
parts = "{\"a\"" ∷ "" ∷ ":1}" ∷ []

run_tool_use_example :
    (run plain (start_message 3 "t1" "Read" ∷ rest_of_tool 3 parts) new_stream_state).0
    ≡ record (event "tool_start") { tool_id = "t1"; tool_name = "Read" }
      ∷ delta_events "t1" parts (
          record (event "tool_stop") {
            tool_id = "t1";
            tool_input = pretty_json plain (joined parts);
          }
          ∷ [])
run_tool_use_example = run_tool_use plain 3 "t1" refl "Read" parts new_stream_state

abbrev texts : List String
texts = "Hel" ∷ "Hello" ∷ []
