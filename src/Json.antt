-- ===== src/Json.antt =====
-- A decoded JSON value (Go's `any`), as far as the program reads it: the inputs of the question broker
-- and the events of a stream. A map is its list of entries, and the first of a name counts.
use ai_dandelion.Base.{ℕ, suc, String, Bool, Option, none, some, if◌then◌else◌, str_eq}

mutual
  -- []any
  pub data Elements : Type 0 where
    no_elements : Elements
    element : (v : Value) (vs : Elements) → Elements

  -- map[string]any
  pub data Entries : Type 0 where
    no_entries : Entries
    entry : (name : String) (v : Value) (es : Entries) → Entries

  pub data Value : Type 0 where
    mapping : Entries → Value
    slice : Elements → Value
    of_text : String → Value
    of_number : ℕ → Value
    of_bool : Bool → Value
    nil : Value

unfoldable pub get : String → Entries → Option Value
get name no_entries = none
get name (entry n v fs) = if str_eq n name then some v else get name fs

-- `m[name]`: nil when the name is missing.
unfoldable pub value_at : String → Entries → Value
unfolding get
value_at name fs = elim (get name fs) [ some v ↦ v | none ↦ nil ]

unfoldable pub element_count : Elements → ℕ
element_count no_elements = 0
element_count (element v vs) = suc (element_count vs)

-- `text, _ := value.(string)`
unfoldable pub string_value : Value → String
string_value (of_text s) = s
string_value _ = ""
