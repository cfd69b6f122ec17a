-- ===== src/Json/Reading.antt =====
-- How the text of a JSON string is read: the characters up to the closing quote, with their escapes.
use soa.Prelude.{
  ℕ, zero, suc, ◌+◌, ◌-◌, ◌*◌, Bool, false, ◌&&◌, ◌||◌, Option, none, some, List, [], ◌∷◌, ltb, leb,
  ◌==◌, if◌then◌else◌,
}
use soa.Json.{Bytes}

abbrev pub hex_value : ℕ → Option ℕ
hex_value c =
    if leb b'0' c && leb c b'9'
    then some (c - b'0')
    else if leb b'a' c && leb c b'f'
    then some (c - b'a' + 10)
    else if leb b'A' c && leb c b'F'
    then some (c - b'A' + 10)
    else none

abbrev pub shift_in : Option ℕ → ℕ → Option ℕ
shift_in none c = none
shift_in (some v) c = elim (hex_value c) [ none ↦ none | some d ↦ some (v * 16 + d) ]

abbrev pub with_rest : Option ℕ → Bytes → Option (ℕ × Bytes)
with_rest none r = none
with_rest (some v) r = some (v, r)

-- Four hexadecimal digits.
unfoldable pub read_four : Bytes → Option (ℕ × Bytes)
read_four [] = none
read_four (a ∷ []) = none
read_four (a ∷ b ∷ []) = none
read_four (a ∷ b ∷ c ∷ []) = none
read_four (a ∷ b ∷ c ∷ d ∷ r) =
    with_rest (shift_in (shift_in (shift_in (shift_in (some 0) a) b) c) d) r

-- What follows a backslash.
unfoldable pub read_escape : Bytes → Option (ℕ × Bytes)
unfolding read_four
read_escape [] = none
read_escape (e ∷ r) =
    if e == b'"' || e == b'\\' || e == b'/'
    then some (e, r)
    else if e == b't'
    then some (9, r)
    else if e == b'n'
    then some (10, r)
    else if e == b'r'
    then some (13, r)
    else if e == b'b'
    then some (8, r)
    else if e == b'f'
    then some (12, r)
    else if e == b'u'
    then read_four r
    else none

-- A control character is not allowed.
unfoldable pub read_char : Bytes → Option (ℕ × Bytes)
unfolding read_escape
read_char [] = none
read_char (c ∷ r) = if c == b'\\' then read_escape r else if ltb c 32 then none else some (c, r)

abbrev pub is_quote : Bytes → Bool
is_quote [] = false
is_quote (c ∷ r) = c == b'"'

abbrev tail : Bytes → Bytes
tail [] = []
tail (c ∷ r) = r

abbrev pub push : ℕ → Option (List ℕ × Bytes) → Option (List ℕ × Bytes)
push c none = none
push c (some (cs, r)) = some (c ∷ cs, r)

-- The characters of a string after its opening quote, and what follows its closing quote. A unit of
-- fuel is for a character or the quote.
unfoldable pub read_string : ℕ → Bytes → Option (List ℕ × Bytes)
unfolding read_char
read_string zero s = none
read_string (suc fuel) s =
    if is_quote s
    then some ([], tail s)
    else elim (read_char s) [ none ↦ none | some y ↦ push y.0 (read_string fuel y.1) ]
