-- ===== src/Ids/Parse.antt =====
-- types/id.cc: `parse`.
use soa.Prelude.{
  same_bytes, ℕ, ◌+◌, ◌*◌, ◌^◌, ◌%◌, Bool, true, false, not, ◌&&◌, ◌||◌, Option, none, some, List,
  [], ◌∷◌, ok, err, length, take, drop, get_elem?, codes, ltb, leb, ◌==◌, if◌then◌else◌,
}
use soa.Prelude.Digits.{scan}
use soa.Ids.{
  Kind, unknown, none_id, null_id, uuid, goog128, bigdec, base64_96, hex128lc, uuid_caps, Ident,
  simple, string, changed_type, Result, kind_of, same_kind, uuid_fields, two_halves,
}
use soa.Ids.Characters.{
  Caps, no_letter, lower, upper, letter_case, hex_to_dec, hex_char, goog_to_dec, goog_char,
  base64_to_dec, base64_char, digit_to_dec, digit_char,
}

-- The byte at a position of the text, which ends in a 0.
abbrev pub byte_at : ℕ → List ℕ → ℕ
byte_at i s = elim (get_elem? s i) [ none ↦ 0 | some c ↦ c ]

-- One more letter in the case of those before, or nothing where the cases differ.
abbrev pub join_case : Caps → Caps → Option Caps
join_case k no_letter = some k
join_case no_letter l = some l
join_case lower lower = some lower
join_case upper upper = some upper
join_case _ _ = none

-- `scanRange` of a UUID.
unfoldable pub scan_range : Caps → List ℕ → ℕ → Option (Caps × ℕ)
scan_range k [] a = some (k, a)
scan_range k (c ∷ cs) a = elim (join_case k (letter_case c)) [
  | none ↦ none
  | some l ↦ elim (hex_to_dec c) [ none ↦ none | some d ↦ scan_range l cs ((a * 16 + d) % 2 ^ 64) ]
]

abbrev pub slice : ℕ → ℕ → List ℕ → List ℕ
slice start len s = take len (drop start s)

-- The part of a UUID from one position on, and what follows with it.
abbrev pub scan_at : List ℕ → ℕ → ℕ → Caps → (Caps → ℕ → Option Ident) → Option Ident
unfolding scan_range
scan_at s start len k next = elim (scan_range k (slice start len s) 0) [
  | none ↦ none
  | some r ↦ next r.0 r.1
]

abbrev pub uuid_kind : Caps → Kind
uuid_kind upper = uuid_caps
uuid_kind _ = uuid

unfoldable pub parse_uuid : List ℕ → Option Ident
unfolding scan_range
parse_uuid s =
    if length s == 36
      && byte_at 8 s == b'-'
      && byte_at 13 s == b'-'
      && byte_at 18 s == b'-'
      && byte_at 23 s == b'-'
    then scan_at s 0 8 no_letter (λ k1 a. scan_at s 9 4 k1 (λ k2 b. scan_at s 14 4 k2 (λ k3 c.
      scan_at s 19 4 k3 (λ k4 d.
        scan_at s 24 12 k4 (λ k5 e. some (simple (uuid_kind k5) (uuid_fields a b c d e)))))))
    else none

-- "CAESE"
abbrev pub goog_prefix : List ℕ
goog_prefix = codes "CAESE"

unfoldable pub parse_goog : List ℕ → Option Ident
parse_goog s =
    if length s == 26 && same_bytes (take 5 s) goog_prefix
    then elim (scan goog_to_dec goog_char 64 (2 ^ 128) (drop 5 s) 0) [
      | none ↦ none
      | some v ↦ some (simple goog128 v)
    ]
    else none

-- The first 19 digits are read into 64 bits, and the rest into 128.
unfoldable pub parse_bigdec : List ℕ → Option Ident
parse_bigdec s =
    if not (byte_at 0 s == b'0') && ltb (length s) 40
    then elim (scan digit_to_dec digit_char 10 (2 ^ 64) (take 19 s) 0) [
      | none ↦ none
      | some low ↦
          if leb (length s) 19
          then some (simple bigdec low)
          else elim (scan digit_to_dec digit_char 10 (2 ^ 128) (drop 19 s) low) [
            | none ↦ none
            | some v ↦ some (simple bigdec v)
          ]
    ]
    else none

unfoldable pub parse_base64 : List ℕ → Option Ident
parse_base64 s =
    if length s == 16
    then elim (scan base64_to_dec base64_char 64 (2 ^ 64) (take 8 s) 0) [
      | none ↦ none
      | some high ↦ elim (scan base64_to_dec base64_char 64 (2 ^ 64) (drop 8 s) 0) [
        | none ↦ none
        | some low ↦ some (simple base64_96 (high * 2 ^ 48 + low))
      ]
    ]
    else none

unfoldable pub parse_hex128 : List ℕ → Option Ident
parse_hex128 s =
    if length s == 32
    then elim (scan hex_to_dec (hex_char lower) 16 (2 ^ 64) (take 16 s) 0) [
      | none ↦ none
      | some high ↦ elim (scan hex_to_dec (hex_char lower) 16 (2 ^ 64) (drop 16 s) 0) [
        | none ↦ none
        | some low ↦ some (simple hex128lc (two_halves high low))
      ]
    ]
    else none

-- An attempt that is made for some of the kinds that may be asked for.
abbrev pub wanted : Kind → Kind → Bool
wanted asked k = same_kind asked unknown || same_kind asked k

abbrev pub attempt : Bool → Option Ident → Option Ident → Option Ident
attempt true (some r) rest = some r
attempt true none rest = rest
attempt false r rest = rest

unfoldable pub parse_value : Kind → List ℕ → Option Ident
unfolding parse_uuid parse_goog parse_bigdec parse_base64 parse_hex128
parse_value asked s = attempt (wanted asked none_id && length s == 0) (some (simple none_id 0)) (
    attempt (wanted asked null_id && same_bytes s (codes "null")) (some (simple null_id 0)) (
      attempt (wanted asked bigdec && same_bytes s (codes "0")) (some (simple bigdec 0)) (
        attempt (wanted asked uuid || wanted asked uuid_caps) (parse_uuid s) (
          attempt (wanted asked goog128) (parse_goog s) (
            attempt (wanted asked bigdec) (parse_bigdec s) (
              attempt (wanted asked base64_96) (parse_base64 s)
                (attempt (wanted asked hex128lc) (parse_hex128 s) none)))))))

-- `finish`
abbrev pub finish : Kind → Ident → Result Ident
finish asked r =
    if not (same_kind (kind_of r) asked) && not (same_kind asked unknown)
    then err changed_type
    else ok r

unfoldable pub parse : Kind → List ℕ → Result Ident
unfolding parse_value
parse asked s = elim (parse_value asked s) [
  | some r ↦ finish asked r
  | none ↦ finish asked (string s)
]
