-- ===== src/Base/Text.antt =====
-- Go's `strings` functions that the program calls, over texts as lists of characters.
use Prim.Native.Nat.{ℕ, zero, suc, ◌+◌, ◌-◌}
use Prim.Native.Char.{code}
use Prim.Native.String.{String}
use mathlib.Core.Bool.{Bool, true, false, ◌&&◌, ◌||◌}
use ai_dandelion.Base.Tests.{ltb, leb, ◌==◌, if◌then◌else◌}

-- `unicode.IsSpace`.
unfoldable pub is_space : ℕ → Bool
is_space c =
    (leb 9 c && leb c 13)
    || c == 32
    || c == 0x85
    || c == 0xa0
    || c == 0x1680
    || (leb 0x2000 c && leb c 0x200a)
    || c == 0x2028
    || c == 0x2029
    || c == 0x202f
    || c == 0x205f
    || c == 0x3000

abbrev pub is_empty : String → Bool
is_empty String.[] = true
is_empty (String.◌∷◌ c s) = false

-- `strings.TrimLeftFunc(s, unicode.IsSpace)`.
unfoldable pub trim_left : String → String
unfolding is_space
trim_left String.[] = String.[]
trim_left (String.◌∷◌ c s) =
    let rest = trim_left s in if is_space (code c) then rest else String.◌∷◌ c s

-- `strings.TrimRightFunc(s, unicode.IsSpace)`.
unfoldable pub trim_right : String → String
unfolding is_space
trim_right String.[] = String.[]
trim_right (String.◌∷◌ c s) =
    let rest = trim_right s in
    if is_empty rest && is_space (code c) then String.[] else String.◌∷◌ c rest

-- `strings.TrimSpace`.
unfoldable pub trim_space : String → String
unfolding trim_left trim_right
trim_space s = trim_right (trim_left s)

-- How many bytes a character takes in UTF-8.
unfoldable pub byte_count : ℕ → ℕ
byte_count c = if ltb c 0x80 then 1 else if ltb c 0x800 then 2 else if ltb c 0x10000 then 3 else 4

-- The characters that lie whole in the first `n` bytes.
unfoldable pub truncate_bytes : ℕ → String → String
unfolding byte_count
truncate_bytes n String.[] = String.[]
truncate_bytes n (String.◌∷◌ c s) =
    let rest = truncate_bytes (n - byte_count (code c)) s in
    if leb (byte_count (code c)) n then String.◌∷◌ c rest else String.[]

-- `unicode.ToLower`, exact for the comparison with an ASCII text: the only other characters with
-- an ASCII lower case are U+0130 and U+212A.
unfoldable pub lower_code : ℕ → ℕ
lower_code c =
    if leb b'A' c && leb c b'Z'
    then c + 32
    else if c == 0x130
    then b'i'
    else if c == 0x212a
    then b'k'
    else c

-- `strings.ToLower(s) == t`, for an ASCII text `t` in lower case.
unfoldable pub lower_is : String → String → Bool
unfolding lower_code
lower_is String.[] String.[] = true
lower_is (String.◌∷◌ c s) String.[] = false
lower_is String.[] (String.◌∷◌ d t) = false
lower_is (String.◌∷◌ c s) (String.◌∷◌ d t) = lower_code (code c) == code d && lower_is s t

-- `string([]rune(s)[:n])` where that is shorter.
unfoldable pub take_runes : ℕ → String → String
take_runes zero s = String.[]
take_runes (suc n) String.[] = String.[]
take_runes (suc n) (String.◌∷◌ c s) = String.◌∷◌ c (take_runes n s)

-- `len([]rune(s))`
unfoldable pub rune_count : String → ℕ
rune_count String.[] = 0
rune_count (String.◌∷◌ c s) = suc (rune_count s)

-- `strings.HasPrefix(s, p)`
unfoldable pub has_prefix : String → String → Bool
has_prefix s String.[] = true
has_prefix String.[] (String.◌∷◌ d p) = false
has_prefix (String.◌∷◌ c s) (String.◌∷◌ d p) = code c == code d && has_prefix s p

-- `strings.HasPrefix(strings.ToLower(s), p)`, for an ASCII text `p` in lower case.
unfoldable pub lower_has_prefix : String → String → Bool
unfolding lower_code
lower_has_prefix s String.[] = true
lower_has_prefix String.[] (String.◌∷◌ d p) = false
lower_has_prefix (String.◌∷◌ c s) (String.◌∷◌ d p) =
    lower_code (code c) == code d && lower_has_prefix s p

-- `strings.Contains(strings.ToLower(s), p)`, for an ASCII text `p` in lower case.
unfoldable pub lower_contains : String → String → Bool
unfolding lower_has_prefix
lower_contains String.[] p = is_empty p
lower_contains (String.◌∷◌ c s) p = lower_has_prefix (String.◌∷◌ c s) p || lower_contains s p

-- `s < t`: the order of the bytes of UTF-8 is the order of the characters.
unfoldable pub str_less : String → String → Bool
str_less String.[] String.[] = false
str_less String.[] (String.◌∷◌ d t) = true
str_less (String.◌∷◌ c s) String.[] = false
str_less (String.◌∷◌ c s) (String.◌∷◌ d t) =
    ltb (code c) (code d) || (code c == code d && str_less s t)

-- `strings.Contains(s, p)`
unfoldable pub contains : String → String → Bool
unfolding has_prefix
contains String.[] p = is_empty p
contains (String.◌∷◌ c s) p = has_prefix (String.◌∷◌ c s) p || contains s p
