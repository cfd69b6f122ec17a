-- ===== src/Json/Strings.antt =====
-- types/json_printing.cc: the text that `writeStringUtf8` writes is read as the string again.
use mathlib.Core.List.{append_assoc}
use soa.Prelude.{
  ℕ, suc, ◌+◌, ◌*◌, ◌/◌, ◌%◌, ◌<◌, ◌≡◌, refl, sym, ap, ◌∙◌, true, false, ◌||◌, some, List, [], ◌∷◌,
  ◌++◌, length, All, Outcome, ok, err, ◌>>=◌, ltb, ◌==◌, if-elim, ==_iff, lt→ltb, arith,
}
use soa.Json.{
  Bytes, Writers, JsonFault, hex_digit, is_plain, format_u, write_char, write_chars,
  write_string_utf8, quoted,
}
use soa.Json.Reading.{
  hex_value, shift_in, with_rest, read_four, read_escape, read_char, is_quote, push, read_string,
}

hex_value-hex_digit : (d : ℕ) → d < 16 → hex_value (hex_digit d) ≡ some d
hex_value-hex_digit d h = ground arith

shift_in-hex_digit : (v d : ℕ) → d < 16 → shift_in (some v) (hex_digit d) ≡ some (v * 16 + d)
shift_in-hex_digit v d h = rw (hex_value-hex_digit d h, shift_in) refl

read_four-format_u :
    (c : ℕ) (r : Bytes)
    → c < 65536
    → read_four (
        hex_digit (c / 4096)
        ∷ hex_digit (c / 256 % 16)
        ∷ hex_digit (c / 16 % 16)
        ∷ hex_digit (c % 16)
        ∷ r)
      ≡ some (c, r)
unfolding read_four
read_four-format_u c r h =
    let p = hex_digit (c / 4096) in
    let q = hex_digit (c / 256 % 16) in
    let s = hex_digit (c / 16 % 16) in
    let t = hex_digit (c % 16) in
    let first = shift_in-hex_digit 0 (c / 4096) (omega (arith, h)) in
    let second = shift_in-hex_digit (0 * 16 + c / 4096) (c / 256 % 16) (omega arith) in
    let third =
      shift_in-hex_digit ((0 * 16 + c / 4096) * 16 + c / 256 % 16) (c / 16 % 16) (omega arith) in
    let last =
      shift_in-hex_digit (((0 * 16 + c / 4096) * 16 + c / 256 % 16) * 16 + c / 16 % 16) (c % 16)
        (omega arith) in
    let sum : (((0 * 16 + c / 4096) * 16 + c / 256 % 16) * 16 + c / 16 % 16) * 16 + c % 16 ≡ c =
      omega arith in
    ap (λ o. with_rest o r)
      (ap (λ o. shift_in (shift_in (shift_in o q) s) t) first
        ∙ ap (λ o. shift_in (shift_in o s) t) second
        ∙ ap (λ o. shift_in o t) third
        ∙ last
        ∙ ap some sum)

-- A character that is escaped as ASCII.
abbrev pub Reads : Outcome JsonFault Bytes → ℕ → Bytes → Type 0
Reads (ok t) c r = (is_quote (t ++ r) ≡ false) × (read_char (t ++ r) ≡ some (c, r))
Reads (err e) c r = ⊥

pub plain-Reads : (c : ℕ) (r : Bytes) → is_plain c ≡ true → Reads (ok (c ∷ [])) c r
unfolding read_char
plain-Reads c r h = ground (arith, h)

pub short-Reads :
    (c d e : ℕ) (r : Bytes)
    → (c == d) ≡ true
    → read_char (b'\\' ∷ e ∷ r) ≡ some (d, r)
    → Reads (ok (b'\\' ∷ e ∷ [])) c r
short-Reads c d e r same h = (refl, h ∙ ap (λ (x : ℕ). some (x, r)) (sym ((==_iff c d).0 same)))

pub self-Reads :
    (c : ℕ) (r : Bytes)
    → (c == b'/' || c == b'\\' || c == b'"') ≡ true
    → Reads (ok (b'\\' ∷ c ∷ [])) c r
unfolding read_char read_escape
self-Reads c r h = ground (arith, h)

format_u-Reads : (c : ℕ) (r : Bytes) → c < 65536 → Reads (ok (format_u c)) c r
unfolding read_char read_escape
format_u-Reads c r h = (refl, read_four-format_u c r h)

write_char-Reads : (w : Writers) (c : ℕ) (r : Bytes) → c < 65536 → Reads (write_char w false c) c r
unfolding read_char read_escape
write_char-Reads w c r h =
    let P = λ (o : Outcome JsonFault Bytes). Reads o c r in
    if-elim P (is_plain c) _ _ (plain-Reads c r) (λ _.
      if-elim P (c == 9) _ _ (λ e. short-Reads c 9 b't' r e refl)
        (λ _.
          if-elim P (c == 10) _ _ (λ e. short-Reads c 10 b'n' r e refl)
            (λ _.
              if-elim P (c == 13) _ _ (λ e. short-Reads c 13 b'r' r e refl)
                (λ _.
                  if-elim P (c == 8) _ _ (λ e. short-Reads c 8 b'b' r e refl)
                    (λ _.
                      if-elim P (c == 12) _ _ (λ e. short-Reads c 12 b'f' r e refl)
                        (λ _.
                          if-elim P (c == b'/' || c == b'\\' || c == b'"') _ _ (self-Reads c r)
                            (λ _.
                              if-elim P (ltb c 65536) _ _ (λ _. format_u-Reads c r h)
                                (λ late. cc (late, lt→ltb c 65536 h)))))))))

pub read_string-step :
    (n c : ℕ) (t r : Bytes)
    → Reads (ok t) c r
    → read_string (suc n) (t ++ r) ≡ push c (read_string n r)
unfolding read_string
read_string-step n c t r (not_end, read) = rw (not_end, read_string, read) refl

-- With writeUtf8 cleared and every character below 65536, writeStringUtf8 throws nothing, and what it
-- writes is a quote and a text that is read as the characters themselves up to its closing quote.
pub read_string-write_string_utf8 :
    (w : Writers) (s : List ℕ) (rest : Bytes)
    → All (λ c. c < 65536) s
    → (t : Bytes) × (write_string_utf8 w false s ≡ ok (b'"' ∷ t))
      × (read_string (suc (length s)) (t ++ rest) ≡ some (s, rest))
unfolding write_chars read_string
read_string-write_string_utf8 w s rest h =
    let (t, e, f) = chars w s rest h in
    (
      t ++ (b'"' ∷ []),
      ap (λ x. x >>= λ u. ok (quoted u)) e,
      ap (read_string (suc (length s))) (append_assoc t (b'"' ∷ []) rest) ∙ f,
    )
  where
    one :
        (o : Outcome JsonFault Bytes) (c : ℕ)
        → ((r : Bytes) → Reads o c r)
        → (t : Bytes) × (o ≡ ok t) × ((r : Bytes) → Reads (ok t) c r)
    one (ok t) c h = (t, refl, h)
    one (err e) c h = absurd (h [])

    chars :
        (w : Writers) (s : List ℕ) (rest : Bytes)
        → All (λ c. c < 65536) s
        → (t : Bytes) × (write_chars w false s ≡ ok t)
          × (read_string (suc (length s)) (t ++ (b'"' ∷ rest)) ≡ some (s, rest))
    chars w [] rest h = ([], refl, refl)
    chars w (c ∷ cs) rest h =
        let (u, e, f) = chars w cs rest h.1 in
        let (t, d, reads) = one (write_char w false c) c (λ r. write_char-Reads w c r h.0) in
        (
          t ++ u,
          rw (d, e) refl,
          ap (read_string (suc (suc (length cs)))) (append_assoc t u (b'"' ∷ rest))
              ∙ read_string-step (suc (length cs)) c t (u ++ (b'"' ∷ rest))
                  (reads (u ++ (b'"' ∷ rest)))
              ∙ ap (push c) f,
        )
