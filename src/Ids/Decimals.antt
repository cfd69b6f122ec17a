-- ===== src/Ids/Decimals.antt =====
-- Decimal identifiers: what is printed for what was read is what was read.
use soa.Prelude.{
  ℕ, suc, ◌^◌, ◌<◌, ◌≤◌, ◌≡◌, ◌≢◌, refl, sym, ap, ◌∙◌, Bool, true, false, if-some, match-some,
  if-cases, not, ◌&&◌, inl, inr, some, List, [], ◌∷◌, length, take, drop, take-drop, drop_all,
  length-take_le, All, All-of, codes, ltb, leb, ==_iff, leb→le, ◌==◌, if◌then◌else◌, arith,
}
use soa.Prelude.Digits.{
  scan, print_all, top, IsDigitOf, scan-print, scan-scan, top_longer, print_all-scan,
}
use soa.Ids.{bigdec, Ident, simple, val1, val2}
use soa.Ids.Characters.{digit_to_dec, digit_char, digit-IsDigitOf}
use soa.Ids.Parse.{parse_bigdec}
use soa.Ids.Print.{bigdec_text}
use soa.Ids.Numbers.{some-inj}

digits_of : (s : List ℕ) → All (IsDigitOf digit_to_dec digit_char 10) s
digits_of = All-of (IsDigitOf digit_to_dec digit_char 10) digit-IsDigitOf

top_below :
    (n m size : ℕ)
    → n ≤ m
    → top digit_to_dec digit_char 10 m 0 < size
    → top digit_to_dec digit_char 10 n 0 < size
top_below n m size h k =
    let longer = top_longer digit_to_dec digit_char 10 n m 0 (omega arith) h in
    omega (arith, k, longer)

-- Reading the first 19 digits into 64 bits is as if all were read into 128.
read_whole :
    (s : List ℕ) (low v : ℕ)
    → scan digit_to_dec digit_char 10 (2 ^ 64) (take 19 s) 0 ≡ some low
    → scan digit_to_dec digit_char 10 (2 ^ 128) (drop 19 s) low ≡ some v
    → scan digit_to_dec digit_char 10 (2 ^ 128) s 0 ≡ some v
read_whole s low v h k =
    let xs = take 19 s in
    let short : length xs ≤ 19 = length-take_le 19 s in
    let small = top_below (length xs) 19 (2 ^ 64) short (omega arith) in
    let large = top_below (length xs) 19 (2 ^ 128) short (omega arith) in
    ap (λ t. scan digit_to_dec digit_char 10 (2 ^ 128) t 0) (sym (take-drop 19 s))
    ∙ scan-scan digit_to_dec digit_char 10 (2 ^ 64) (2 ^ 128) xs (drop 19 s) 0 low v (omega arith)
        (digits_of xs) small large h k

digit_not_zero : (c : ℕ) → (c == b'0') ≡ false → digit_to_dec c ≢ some 0
digit_not_zero c h = ground arith

pick :
    (a b : Bool) (x y z t : List ℕ)
    → (a ≡ true → (b ≡ false) × (y ≡ t))
    → (a ≡ false → z ≡ t)
    → (if a then (if b then x else y) else z) ≡ t
pick true true x y z t h k = let (e, _) = h refl in cc
pick true false x y z t h k = (h refl).1
pick false b x y z t h k = k refl

bigdec_text_all :
    (v : ℕ) → v < 2 ^ 128 → v ≢ 0 → bigdec_text v ≡ print_all digit_to_dec digit_char 10 40 v []
unfolding bigdec_text
bigdec_text_all v h k =
    pick (val2 v == 0) (val1 v == 0) (codes "0")
      (print_all digit_to_dec digit_char 10 40 (val1 v) [])
      (print_all digit_to_dec digit_char 10 40 v []) (print_all digit_to_dec digit_char 10 40 v [])
      (λ small.
        let no_high = (==_iff (val2 v) 0).0 small in
        let same : val1 v ≡ v = omega (arith, no_high, h) in
        let some_low : (val1 v == 0) ≡ false = ground arith in
        (some_low, ap (λ n. print_all digit_to_dec digit_char 10 40 n []) same))
      (λ _. refl)

not_nil : (c : ℕ) (cs : List ℕ) → [] ≢ c ∷ cs
not_nil c cs h = cc

bigdec_whole :
    (c : ℕ) (cs : List ℕ) (v : ℕ)
    → (c == b'0') ≡ false
    → length cs < 38
    → scan digit_to_dec digit_char 10 (2 ^ 128) (c ∷ cs) 0 ≡ some v
    → bigdec_text v ≡ c ∷ cs
bigdec_whole c cs v first long h =
    let fits = top_below (suc (length cs)) 38 (2 ^ 128) (omega (arith, long)) (omega arith) in
    let (_, _, most) =
      scan-print digit_to_dec digit_char 10 (2 ^ 128) (c ∷ cs) 0 v [] (omega arith)
        (digits_of (c ∷ cs)) fits h in
    let all =
      print_all-scan digit_to_dec digit_char 10 (2 ^ 128) 40 c cs v (omega arith)
        (digits_of (c ∷ cs)) (digit_not_zero c first) (omega (arith, long)) fits h in
    bigdec_text_all v (omega (arith, most, fits))
      (λ e. not_nil c cs (sym (ap (λ n. print_all digit_to_dec digit_char 10 40 n []) e) ∙ all))
    ∙ all

-- Of 38 digits at most.
pub parse_bigdec-bigdec_text :
    (c : ℕ) (cs : List ℕ) (r : Ident)
    → length cs < 38
    → parse_bigdec (c ∷ cs) ≡ some r
    → (v : ℕ) × (simple bigdec v ≡ r) × (bigdec_text v ≡ c ∷ cs)
unfolding parse_bigdec
parse_bigdec-bigdec_text c cs r long h =
    let s = c ∷ cs in
    let (test, found) = if-some (not (c == b'0') && ltb (length s) 40) _ r h in
    let first : (c == b'0') ≡ false = ground arith in
    let (low, start, found2) =
      match-some (scan digit_to_dec digit_char 10 (2 ^ 64) (take 19 s) 0) _ r found in
    elim (if-cases (leb (length s) 19) _ _ r found2) [
      | inl (few, same) ↦ (
        low,
        some-inj _ r same,
        bigdec_whole c cs low first long
            (read_whole s low low start (rw (drop_all 19 s (leb→le (length s) 19 few)) refl)),
      )
      | inr (_, found3) ↦
          let (v, rest, same) =
            match-some (scan digit_to_dec digit_char 10 (2 ^ 128) (drop 19 s) low) _ r found3 in
          (v, some-inj _ r same, bigdec_whole c cs v first long (read_whole s low v start rest))
    ]
