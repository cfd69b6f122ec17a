-- ===== src/Urls/Quoting.antt =====
-- `quoteUrl` of types/url.cc against the reading of percent signs.
use soa.Prelude.{
  ℕ, ◌+◌, ◌*◌, ◌/◌, ◌%◌, ◌<◌, ◌≡◌, ◌≢◌, refl, ap, ◌∙◌, true, false, Bool-cases, inl, inr, Option,
  none, some, [], ◌∷◌, ◌++◌, All, ltb, ◌==◌, ltb→lt, lt→ltb, if◌then◌else◌, if-elim, codes, arith,
}
use soa.Json.Reading.{hex_value}
use soa.Urls.{Text, upper_digit, format_char, is_safe, quote_url}

-- A reader is between characters, after a percent sign, or after its first digit.
pub data Reading : Type 0 where
  plain after_percent : Reading
  after_digit : ℕ → Reading

abbrev pub push : ℕ → Option Text → Option Text
push c none = none
push c (some t) = some (c ∷ t)

unfoldable pub unquote : Reading → Text → Option Text
unquote plain [] = some []
unquote after_percent [] = none
unquote (after_digit v) [] = none
unquote plain (c ∷ r) =
    let rest = unquote plain r in
    let escape = unquote after_percent r in if c == b'%' then escape else push c rest
unquote after_percent (c ∷ r) = elim (hex_value c) [
  | none ↦ none
  | some v ↦ unquote (after_digit v) r
]
unquote (after_digit v) (c ∷ r) =
    let rest = unquote plain r in
    elim (hex_value c) [ none ↦ none | some w ↦ push (v * 16 + w) rest ]

-- What the quoted form of a byte is read as: from 128 on, a byte 255 and six digits.
abbrev pub seen_byte : ℕ → Text
seen_byte c =
    if ltb c 128
    then c ∷ []
    else 255 ∷ codes "FFFF" ++ (upper_digit (c / 16) ∷ upper_digit (c % 16) ∷ [])

abbrev pub seen : ℕ → Text → Text
seen safe [] = []
seen safe (c ∷ s) = (if is_safe safe c then c ∷ [] else seen_byte c) ++ seen safe s

abbrev push_all : Text → Option Text → Option Text
push_all t none = none
push_all t (some u) = some (t ++ u)

hex_value-upper_digit : (d : ℕ) → d < 16 → hex_value (upper_digit d) ≡ some d
hex_value-upper_digit d h = ground arith

push-one : (c : ℕ) (o : Option Text) → push c o ≡ push_all (c ∷ []) o
push-one c none = refl
push-one c (some t) = refl

safe_plain : (safe c : ℕ) → safe ≢ b'%' → is_safe safe c ≡ true → (c == b'%') ≡ false
safe_plain safe c h e = ground (arith, h, e)

plain_step :
    (c : ℕ) (r : Text) → (c == b'%') ≡ false → unquote plain (c ∷ r) ≡ push c (unquote plain r)
unfolding unquote
plain_step c r h = rw (h, unquote) refl

percent_step : (r : Text) → unquote plain (b'%' ∷ r) ≡ unquote after_percent r
unfolding unquote
percent_step r = refl

first_step :
    (c d : ℕ) (r : Text)
    → hex_value c ≡ some d
    → unquote after_percent (c ∷ r) ≡ unquote (after_digit d) r
unfolding unquote
first_step c d r h = ap (λ o. elim o [ none ↦ none | some v ↦ unquote (after_digit v) r ]) h

second_step :
    (v c d : ℕ) (r : Text)
    → hex_value c ≡ some d
    → unquote (after_digit v) (c ∷ r) ≡ push (v * 16 + d) (unquote plain r)
unfolding unquote
second_step v c d r h =
    ap (λ o. elim o [ none ↦ none | some w ↦ push (v * 16 + w) (unquote plain r) ]) h

digit_plain : (d : ℕ) → d < 16 → (upper_digit d == b'%') ≡ false
digit_plain d h = ground arith

low_lem :
    (c : ℕ) (r : Text)
    → c < 128
    → unquote plain (b'%' ∷ upper_digit (c / 16) ∷ upper_digit (c % 16) ∷ r)
      ≡ push_all (c ∷ []) (unquote plain r)
low_lem c r h =
    let sum : c / 16 * 16 + c % 16 ≡ c = omega arith in
    percent_step (upper_digit (c / 16) ∷ upper_digit (c % 16) ∷ r)
    ∙ first_step (upper_digit (c / 16)) (c / 16) (upper_digit (c % 16) ∷ r)
        (hex_value-upper_digit (c / 16) (omega (arith, h)))
    ∙ second_step (c / 16) (upper_digit (c % 16)) (c % 16) r
        (hex_value-upper_digit (c % 16) (omega arith))
    ∙ ap (λ v. push v (unquote plain r)) sum
    ∙ push-one c (unquote plain r)

push_all-push : (c : ℕ) (t : Text) (o : Option Text) → push c (push_all t o) ≡ push_all (c ∷ t) o
push_all-push c t none = refl
push_all-push c t (some u) = refl

push_all-nil : (o : Option Text) → o ≡ push_all [] o
push_all-nil none = refl
push_all-nil (some u) = refl

-- Bytes that are no percent signs are read as they are.
plain_bytes :
    (t r : Text)
    → All (λ c. (c == b'%') ≡ false) t
    → unquote plain (t ++ r) ≡ push_all t (unquote plain r)
plain_bytes [] r h = push_all-nil (unquote plain r)
plain_bytes (c ∷ t) r h =
    plain_step c (t ++ r) h.0
    ∙ ap (push c) (plain_bytes t r h.1)
    ∙ push_all-push c t (unquote plain r)

high_lem :
    (c : ℕ) (r : Text)
    → c < 256
    → unquote plain (b'%' ∷ codes "FFFFFF" ++ (upper_digit (c / 16) ∷ upper_digit (c % 16) ∷ r))
      ≡ push_all
          (255 ∷ codes "FFFF" ++ (upper_digit (c / 16) ∷ upper_digit (c % 16) ∷ []))
          (unquote plain r)
high_lem c r h =
    let t = codes "FFFF" ++ (upper_digit (c / 16) ∷ upper_digit (c % 16) ∷ []) in
    percent_step (b'F' ∷ b'F' ∷ t ++ r)
    ∙ first_step b'F' 15 (b'F' ∷ t ++ r) refl
    ∙ second_step 15 b'F' 15 (t ++ r) refl
    ∙ ap (push 255) (
        plain_bytes t r (
          refl,
          (
            refl,
            (
              refl,
              (
                refl,
                (digit_plain (c / 16) (omega (arith, h)), (digit_plain (c % 16) (omega arith), tt)),
              ),
            ),
          ),
        ))
    ∙ push_all-push 255 t (unquote plain r)

quoted_byte :
    (safe c : ℕ) (r : Text)
    → safe ≢ b'%'
    → c < 256
    → unquote plain ((if is_safe safe c then c ∷ [] else format_char c) ++ r)
      ≡ push_all (if is_safe safe c then c ∷ [] else seen_byte c) (unquote plain r)
quoted_byte safe c r other h = elim (Bool-cases (is_safe safe c)) [
  | inl kept ↦
      rw kept (plain_step c r (safe_plain safe c other kept) ∙ push-one c (unquote plain r))
  | inr quoted ↦ elim (Bool-cases (ltb c 128)) [
    | inl low ↦ rw (quoted, low) (low_lem c r (ltb→lt c 128 low))
    | inr high ↦ rw (quoted, high) (high_lem c r h)
  ]
]

-- Where the safe character is no percent sign, the quoted form of a part is read, percent signs with two
-- hexadecimal digits for bytes, as the part itself but for its bytes of 128 and more, each of which is read
-- as the byte 255, four letters F and the two digits of the byte.
pub unquote-quote_url :
    (safe : ℕ) (s : Text)
    → safe ≢ b'%'
    → All (λ c. c < 256) s
    → unquote plain (quote_url safe s) ≡ some (seen safe s)
unfolding quote_url unquote
unquote-quote_url safe [] other h = refl
unquote-quote_url safe (c ∷ s) other h =
    quoted_byte safe c (quote_url safe s) other h.0
    ∙ ap (push_all (if is_safe safe c then c ∷ [] else seen_byte c))
        (unquote-quote_url safe s other h.1)

-- A part with no byte of 128 or more is read as it was.
pub seen_ascii : (safe : ℕ) (s : Text) → All (λ c. c < 128) s → seen safe s ≡ s
seen_ascii safe [] h = refl
seen_ascii safe (c ∷ s) h =
    let low = lt→ltb c 128 h.0 in
    let rest = seen_ascii safe s h.1 in
    if-elim (λ t. t ++ seen safe s ≡ c ∷ s) (is_safe safe c) (c ∷ []) (seen_byte c)
      (λ _. ap (λ t. c ∷ t) rest) (λ _. rw low (ap (λ t. c ∷ t) rest))
