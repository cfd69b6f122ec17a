-- ===== src/Ids/Characters.antt =====
-- types/id.cc: the digits of the notations, by their values and the other way round.
use soa.Prelude.{
  ℕ, ◌+◌, ◌-◌, ◌≡◌, Bool, ◌&&◌, ◌⊎◌, Option, none, some, leb, ltb, ◌==◌, if◌then◌else◌, arith,
}
use soa.Prelude.Digits.{IsDigitOf}

abbrev pub between : ℕ → ℕ → ℕ → Bool
between a b c = leb a c && leb c b

-- `hexToDec`, with nothing for -1.
abbrev pub hex_to_dec : ℕ → Option ℕ
hex_to_dec c =
    if between b'0' b'9' c
    then some (c - b'0')
    else if between b'A' b'F' c
    then some (c - b'A' + 10)
    else if between b'a' b'f' c
    then some (c - b'a' + 10)
    else none

-- The case of the letters of a UUID so far: -1, 0 and 1 in the source.
pub data Caps : Type 0 where
  no_letter lower upper : Caps

abbrev pub letter_case : ℕ → Caps
letter_case c =
    if between b'a' b'f' c then lower else if between b'A' b'F' c then upper else no_letter

-- A hexadecimal digit, as `%x` and `%X` print it.
abbrev pub hex_char : Caps → ℕ → ℕ
hex_char upper d = if ltb d 10 then b'0' + d else d - 10 + b'A'
hex_char _ d = if ltb d 10 then b'0' + d else d - 10 + b'a'

-- `b64Decode` and `b64Encode` of Google identifiers.
abbrev pub goog_to_dec : ℕ → Option ℕ
goog_to_dec c =
    if between b'0' b'9' c
    then some (c - b'0')
    else if between b'A' b'Z' c
    then some (10 + c - b'A')
    else if between b'a' b'z' c
    then some (36 + c - b'a')
    else if c == b'-'
    then some 62
    else if c == b'_'
    then some 63
    else none

abbrev pub goog_char : ℕ → ℕ
goog_char i =
    if ltb i 10
    then i + b'0'
    else if ltb i 36
    then i - 10 + b'A'
    else if ltb i 62
    then i - 36 + b'a'
    else if i == 62
    then b'-'
    else b'_'

-- `base64ToDec`, and `b64Encode` of the 96-bit identifiers.
abbrev pub base64_to_dec : ℕ → Option ℕ
base64_to_dec c =
    if c == b'+'
    then some 0
    else if c == b'/'
    then some 1
    else if between b'0' b'9' c
    then some (2 + (c - b'0'))
    else if between b'A' b'Z' c
    then some (12 + (c - b'A'))
    else if between b'a' b'z' c
    then some (38 + (c - b'a'))
    else none

abbrev pub base64_char : ℕ → ℕ
base64_char i =
    if i == 0
    then b'+'
    else if i == 1
    then b'/'
    else if ltb i 12
    then b'0' + i - 2
    else if ltb i 38
    then b'A' + i - 12
    else b'a' + i - 38

abbrev pub digit_to_dec : ℕ → Option ℕ
digit_to_dec c = if between b'0' b'9' c then some (c - b'0') else none

abbrev pub digit_char : ℕ → ℕ
digit_char d = d + b'0'

pub hex-IsDigitOf :
    (k : Caps) (c : ℕ)
    → (letter_case c ≡ no_letter) ⊎ (letter_case c ≡ k)
    → IsDigitOf hex_to_dec (hex_char k) 16 c
hex-IsDigitOf no_letter c h d e = ground arith
hex-IsDigitOf lower c h d e = ground arith
hex-IsDigitOf upper c h d e = ground arith

pub goog-IsDigitOf : (c : ℕ) → IsDigitOf goog_to_dec goog_char 64 c
goog-IsDigitOf c d e = ground arith

pub base64-IsDigitOf : (c : ℕ) → IsDigitOf base64_to_dec base64_char 64 c
base64-IsDigitOf c d e = ground arith

pub digit-IsDigitOf : (c : ℕ) → IsDigitOf digit_to_dec digit_char 10 c
digit-IsDigitOf c d e = ground arith
