-- ===== src/Ids/Numbers.antt =====
-- Identifiers that are one number: what is printed for what was read is what was read.
use mathlib.Core.List.{append-nil}
use mathlib.Core.Path.{ap₂}
use soa.Prelude.{
  same_bytes, same_bytes-eq, ℕ, ◌+◌, ◌*◌, ◌^◌, ◌<◌, ◌≡◌, ◌≢◌, refl, sym, ap, ◌∙◌, &&-both, if-some,
  match-some, ◌&&◌, ◌⊎◌, inl, inr, some, List, [], ◌∷◌, ◌++◌, length, take, drop, take-drop,
  length-take, length-drop, All, All-of, All-take, All-drop, codes, ==_iff, ◌==◌, arith,
}
use soa.Prelude.Digits.{scan, print, above, top, IsDigitOf, scan-print, pad, above-pad, print-pad}
use soa.Ids.{goog128, base64_96, hex128lc, Ident, simple, val1, val2, two_halves}
use soa.Ids.Characters.{
  Caps, no_letter, lower, upper, letter_case, hex_to_dec, hex_char, goog_to_dec, goog_char,
  base64_to_dec, base64_char, hex-IsDigitOf, goog-IsDigitOf, base64-IsDigitOf,
}
use soa.Ids.Parse.{goog_prefix, parse_goog, parse_base64, parse_hex128}
use soa.Ids.Print.{hex, goog_text, base64_text, hex128_text}

goog-scan :
    (s : List ℕ) (v : ℕ)
    → length s ≡ 21
    → scan goog_to_dec goog_char 64 (2 ^ 128) s 0 ≡ some v
    → print goog_to_dec goog_char 64 21 v [] ≡ s
goog-scan s v h e =
    let fits : top goog_to_dec goog_char 64 (length s) 0 < 2 ^ 128 = rw h (omega arith) in
    let (_, text, _) =
      scan-print goog_to_dec goog_char 64 (2 ^ 128) s 0 v [] (omega arith)
        (All-of (IsDigitOf goog_to_dec goog_char 64) goog-IsDigitOf s) fits e in
    sym (ap (λ n. print goog_to_dec goog_char 64 n v []) h) ∙ text ∙ append-nil s

pub some-inj : {A : Type 0} (a b : A) → some a ≡ some b → a ≡ b
some-inj a b h = cc

-- Where an identifier is read from a text, it is a number of its kind and prints as the text.
pub parse_goog-goog_text :
    (s : List ℕ) (r : Ident)
    → parse_goog s ≡ some r
    → (v : ℕ) × (simple goog128 v ≡ r) × (goog_text v ≡ s)
unfolding parse_goog goog_text
parse_goog-goog_text s r h =
    let (test, found) = if-some (length s == 26 && same_bytes (take 5 s) goog_prefix) _ r h in
    let (v, digits, same) =
      match-some (scan goog_to_dec goog_char 64 (2 ^ 128) (drop 5 s) 0)
        (λ v. some (simple goog128 v)) r found in
    let (long, start) = &&-both (length s == 26) (same_bytes (take 5 s) goog_prefix) test in
    let rest =
      goog-scan (drop 5 s) v (omega (arith, length-drop 5 s, (==_iff (length s) 26).0 long))
        digits in
    (
      v,
      some-inj _ r same,
      ap (λ t. codes "CAESE" ++ t) rest
          ∙ ap (λ t. t ++ drop 5 s) (sym (same_bytes-eq (take 5 s) goog_prefix start))
          ∙ take-drop 5 s,
    )

base64-scan :
    (s : List ℕ) (v : ℕ) (out : List ℕ)
    → length s ≡ 8
    → scan base64_to_dec base64_char 64 (2 ^ 64) s 0 ≡ some v
    → (above base64_to_dec base64_char 64 8 v ≡ 0)
      × (print base64_to_dec base64_char 64 8 v out ≡ s ++ out)
      × (v < 2 ^ 48)
base64-scan s v out h e =
    let fits : top base64_to_dec base64_char 64 (length s) 0 < 2 ^ 64 = rw h (omega arith) in
    let (up, text, most) =
      scan-print base64_to_dec base64_char 64 (2 ^ 64) s 0 v out (omega arith)
        (All-of (IsDigitOf base64_to_dec base64_char 64) base64-IsDigitOf s) fits e in
    let bound : top base64_to_dec base64_char 64 (length s) 0 < 2 ^ 48 = rw h (omega arith) in
    (
      sym (ap (λ n. above base64_to_dec base64_char 64 n v) h) ∙ up,
      sym (ap (λ n. print base64_to_dec base64_char 64 n v out) h) ∙ text,
      omega (arith, most, bound),
    )

-- Two numbers of eight digits print one behind the other.
base64_pair :
    (high low : ℕ) (xs ys : List ℕ)
    → above base64_to_dec base64_char 64 8 low ≡ 0
    → print base64_to_dec base64_char 64 8 low [] ≡ ys
    → print base64_to_dec base64_char 64 8 high ys ≡ xs ++ ys
    → print base64_to_dec base64_char 64 16 (high * 2 ^ 48 + low) [] ≡ xs ++ ys
base64_pair high low xs ys none_left lows highs =
    let v = pad base64_to_dec base64_char 64 8 high + low in
    let shift : high * 2 ^ 48 + low ≡ v = omega arith in
    let up : above base64_to_dec base64_char 64 8 v ≡ high =
      above-pad base64_to_dec base64_char 64 8 high low (omega arith) ∙ omega (arith, none_left) in
    let down = print-pad base64_to_dec base64_char 64 8 high low [] (omega arith) ∙ lows in
    ap (λ n. print base64_to_dec base64_char 64 16 n []) shift
    ∙ ap₂ (λ n t. print base64_to_dec base64_char 64 8 n t) up down
    ∙ highs

pub parse_base64-base64_text :
    (s : List ℕ) (r : Ident)
    → parse_base64 s ≡ some r
    → (v : ℕ) × (simple base64_96 v ≡ r) × (base64_text v ≡ s)
unfolding parse_base64 base64_text
parse_base64-base64_text s r h =
    let (test, found) = if-some (length s == 16) _ r h in
    let long = (==_iff (length s) 16).0 test in
    let (high, first, found2) =
      match-some (scan base64_to_dec base64_char 64 (2 ^ 64) (take 8 s) 0) _ r found in
    let (low, second, same) =
      match-some (scan base64_to_dec base64_char 64 (2 ^ 64) (drop 8 s) 0) _ r found2 in
    let (none_left, lows, _) =
      base64-scan (drop 8 s) low [] (omega (arith, length-drop 8 s, long)) second in
    let (_, highs, _) =
      base64-scan (take 8 s) high (drop 8 s) (length-take 8 s (omega (arith, long))) first in
    (
      high * 2 ^ 48 + low,
      some-inj _ r same,
      base64_pair high low (take 8 s) (drop 8 s) none_left (lows ∙ append-nil (drop 8 s)) highs
          ∙ take-drop 8 s,
    )

hex_digits :
    (s : List ℕ)
    → All (λ c. (letter_case c ≡ no_letter) ⊎ (letter_case c ≡ lower)) s
    → All (IsDigitOf hex_to_dec (hex_char lower) 16) s
hex_digits [] h = tt
hex_digits (c ∷ s) h = (hex-IsDigitOf lower c h.0, hex_digits s h.1)

no_capital :
    (s : List ℕ)
    → All (λ c. letter_case c ≢ upper) s
    → All (λ c. (letter_case c ≡ no_letter) ⊎ (letter_case c ≡ lower)) s
no_capital [] h = tt
no_capital (c ∷ s) h = (at (letter_case c) h.0, no_capital s h.1)
  where
    at : (k : Caps) → k ≢ upper → (k ≡ no_letter) ⊎ (k ≡ lower)
    at no_letter q = inl refl
    at lower q = inr refl
    at upper q = absurd (q refl)

halves :
    (a b : ℕ) (xs ys : List ℕ)
    → a < 2 ^ 64
    → b < 2 ^ 64
    → hex lower 16 a ≡ xs
    → hex lower 16 b ≡ ys
    → hex lower 16 (val1 (two_halves a b)) ++ hex lower 16 (val2 (two_halves a b)) ≡ xs ++ ys
halves a b xs ys ha hb ea eb =
    let one : val1 (two_halves a b) ≡ a = omega (arith, ha) in
    let two : val2 (two_halves a b) ≡ b = omega (arith, ha, hb) in
    ap₂ (λ m n. hex lower 16 m ++ hex lower 16 n) one two ∙ ap₂ (λ s t. s ++ t) ea eb

hex-scan :
    (s : List ℕ) (v : ℕ)
    → All (λ c. (letter_case c ≡ no_letter) ⊎ (letter_case c ≡ lower)) s
    → length s ≡ 16
    → scan hex_to_dec (hex_char lower) 16 (2 ^ 64) s 0 ≡ some v
    → (hex lower 16 v ≡ s) × (v < 2 ^ 64)
hex-scan s v cases h e =
    let fits : top hex_to_dec (hex_char lower) 16 (length s) 0 < 2 ^ 64 = rw h (omega arith) in
    let (_, text, most) =
      scan-print hex_to_dec (hex_char lower) 16 (2 ^ 64) s 0 v [] (omega arith) (hex_digits s cases)
        fits e in
    (sym (ap (λ n. hex lower n v) h) ∙ text ∙ append-nil s, omega (arith, most, fits))

-- Only where it has no capital letters.
pub parse_hex128-hex128_text :
    (s : List ℕ) (r : Ident)
    → All (λ c. letter_case c ≢ upper) s
    → parse_hex128 s ≡ some r
    → (v : ℕ) × (simple hex128lc v ≡ r) × (hex128_text v ≡ s)
unfolding parse_hex128 hex128_text
parse_hex128-hex128_text s r small h =
    let (test, found) = if-some (length s == 32) _ r h in
    let long = (==_iff (length s) 32).0 test in
    let (high, first, found2) =
      match-some (scan hex_to_dec (hex_char lower) 16 (2 ^ 64) (take 16 s) 0) _ r found in
    let (low, second, same) =
      match-some (scan hex_to_dec (hex_char lower) 16 (2 ^ 64) (drop 16 s) 0) _ r found2 in
    let (a, fa) =
      hex-scan (take 16 s) high (no_capital _ (All-take (λ c. letter_case c ≢ upper) 16 s small))
        (length-take 16 s (omega (arith, long))) first in
    let (b, fb) =
      hex-scan (drop 16 s) low (no_capital _ (All-drop (λ c. letter_case c ≢ upper) 16 s small))
        (omega (arith, length-drop 16 s, long)) second in
    (
      two_halves high low,
      some-inj _ r same,
      halves high low (take 16 s) (drop 16 s) fa fb a b ∙ take-drop 16 s,
    )
