-- ===== src/Prelude/Digits.antt =====
-- Numbers in positional notation: reading digits with the wrap-around of an unsigned type, printing
-- a fixed number of them, and printing with no leading zeros.
use Prim.Native.Nat.{ℕ, zero, suc, ◌+◌, ◌-◌, ◌*◌, ◌/◌, ◌%◌, ◌≤◌, ◌<◌}
use native.Mathlib.Nat.{
  mod-eq_of_lt, mul-add-div_right, mul-add-mod_self_right, div-eq_of_lt, mul-le-mul_left,
  mul-le-mul_right, zero-div,
}
use mathlib.Core.Path.{◌≡◌, refl, sym, ap, ap₂, ◌∙◌}
use mathlib.Core.Logic.{◌≢◌, inl, inr}
use mathlib.Core.Bool.{false}
use mathlib.Core.Option.{Option, none, some}
use mathlib.Core.List.{List, [], ◌∷◌, ◌++◌, append-nil}
use native.Mathlib.Omega.{arith}
use soa.Prelude.Tests.{◌==◌, if◌then◌else◌, Option-cases}
use soa.Prelude.Lists.{length, All}

-- The digits of a base by their values, and the other way round.
module _ (dec : ℕ → Option ℕ) (enc : ℕ → ℕ) (base : ℕ) where
  -- Each step is computed modulo `size`.
  abbrev pub scan : ℕ → List ℕ → ℕ → Option ℕ
  scan size [] a = some a
  scan size (c ∷ cs) a = elim (dec c) [
    | none ↦ none
    | some d ↦ scan size cs ((a * base + d) % size)
  ]

  -- The last n digits, in front of a text.
  abbrev pub print : ℕ → ℕ → List ℕ → List ℕ
  print zero v out = out
  print (suc n) v out = print n (v / base) (enc (v % base) ∷ out)

  -- `while (v)`, for at most so many rounds.
  abbrev pub print_all : ℕ → ℕ → List ℕ → List ℕ
  print_all zero v out = out
  print_all (suc fuel) v out =
      if v == 0 then out else print_all fuel (v / base) (enc (v % base) ∷ out)

  -- A number with its last n digits cut off.
  abbrev pub above : ℕ → ℕ → ℕ
  above zero v = v
  above (suc n) v = above n (v / base)

  -- The largest number that n more digits can make of one.
  abbrev pub top : ℕ → ℕ → ℕ
  top zero a = a
  top (suc n) a = top n (a * base + (base - 1))

  above-suc : (n v : ℕ) → above (suc n) v ≡ above n v / base
  above-suc zero v = refl
  above-suc (suc n) v = above-suc n (v / base)

  print_first :
      (n v : ℕ) (out : List ℕ) → print (suc n) v out ≡ enc (above n v % base) ∷ print n v out
  print_first zero v out = refl
  print_first (suc n) v out = print_first n (v / base) (enc (v % base) ∷ out)

  top_mono : (n a b : ℕ) → a ≤ b → top n a ≤ top n b
  top_mono zero a b h = h
  top_mono (suc n) a b h =
      top_mono n (a * base + (base - 1)) (b * base + (base - 1))
        (omega (arith, mul-le-mul_right base h))

  top_le : (n a : ℕ) → 0 < base → a ≤ top n a
  top_le zero a h = omega arith
  top_le (suc n) a h =
      let grows = mul-le-mul_left a h in
      let rest = top_le n (a * base + (base - 1)) h in omega (arith, grows, rest)

  abbrev pub IsDigitOf : ℕ → Type 0
  IsDigitOf c = (d : ℕ) → dec c ≡ some d → (d < base) × (enc d ≡ c)

  scan_bad : (size c : ℕ) (cs : List ℕ) (a : ℕ) → dec c ≡ none → scan size (c ∷ cs) a ≡ none
  scan_bad size c cs a h = rw (h, scan) refl

  pub scan_good :
      (size c : ℕ) (cs : List ℕ) (a d : ℕ)
      → dec c ≡ some d
      → scan size (c ∷ cs) a ≡ scan size cs ((a * base + d) % size)
  scan_good size c cs a d h = rw (h, scan) refl

  -- Where no step wraps around, the number with its digits cut off again is the one before, its
  -- digits are the text, and it is as large as the digits allow.
  pub scan-print :
      (size : ℕ) (cs : List ℕ) (a v : ℕ) (out : List ℕ)
      → 0 < base
      → All IsDigitOf cs
      → top (length cs) a < size
      → scan size cs a ≡ some v
      → (above (length cs) v ≡ a) × (print (length cs) v out ≡ cs ++ out) × (v ≤ top (length cs) a)
  scan-print size [] a v out pos ds fits h = ground arith
  scan-print size (c ∷ cs) a v out pos ds fits h = elim (Option-cases (dec c)) [
    | inl bad ↦ cc (scan_bad size c cs a bad)
    | inr (d, good) ↦
        let (small, same) = ds.0 d good in
        let n = length cs in
        let next = a * base + d in
        let most = top_mono n next (a * base + (base - 1)) (omega (arith, small)) in
        let whole : next % size ≡ next =
          mod-eq_of_lt (omega (arith, fits, most, top_le n next pos)) in
        let step = ap (scan size cs) (sym whole) ∙ sym (scan_good size c cs a d good) ∙ h in
        let (up, text, bound) =
          scan-print size cs next v out pos ds.1 (omega (arith, fits, most)) step in
        let carry : next / base ≡ a =
          mul-add-div_right pos a d ∙ ap (λ k. a + k) (div-eq_of_lt small) ∙ omega arith in
        let last : next % base ≡ d = mul-add-mod_self_right a base d ∙ mod-eq_of_lt small in
        (
          above-suc n v ∙ ap (λ k. k / base) up ∙ carry,
          print_first n v out
              ∙ ap₂ (λ k t. enc (k % base) ∷ t) up text
              ∙ ap (λ k. enc k ∷ (cs ++ out)) last
              ∙ ap (λ k. k ∷ (cs ++ out)) same,
          omega (arith, bound, most),
        )
  ]

  scan_append :
      (size : ℕ) (xs ys : List ℕ) (a b : ℕ)
      → scan size xs a ≡ some b
      → scan size (xs ++ ys) a ≡ scan size ys b
  scan_append size [] ys a b h = ap (scan size ys) (ground arith)
  scan_append size (x ∷ xs) ys a b h = elim (Option-cases (dec x)) [
    | inl bad ↦ cc (scan_bad size x xs a bad)
    | inr (d, good) ↦
        scan_good size x (xs ++ ys) a d good
        ∙ scan_append size xs ys ((a * base + d) % size) b (sym (scan_good size x xs a d good) ∙ h)
  ]

  -- Where no step wraps around, a larger type reads the same.
  scan_resize :
      (small large : ℕ) (cs : List ℕ) (a v : ℕ)
      → 0 < base
      → All IsDigitOf cs
      → top (length cs) a < small
      → top (length cs) a < large
      → scan small cs a ≡ some v
      → scan large cs a ≡ some v
  scan_resize small large [] a v pos ds f g h = h
  scan_resize small large (c ∷ cs) a v pos ds f g h = elim (Option-cases (dec c)) [
    | inl bad ↦ cc (scan_bad small c cs a bad)
    | inr (d, good) ↦
        let n = length cs in
        let next = a * base + d in
        let most = top_mono n next (a * base + (base - 1)) (omega (arith, (ds.0 d good).0)) in
        let least = top_le n next pos in
        let one : next % small ≡ next = mod-eq_of_lt (omega (arith, f, most, least)) in
        let two : next % large ≡ next = mod-eq_of_lt (omega (arith, g, most, least)) in
        let step = ap (scan small cs) (sym one) ∙ sym (scan_good small c cs a d good) ∙ h in
        scan_good large c cs a d good
        ∙ ap (scan large cs) two
        ∙ scan_resize small large cs next v pos ds.1 (omega (arith, f, most))
            (omega (arith, g, most)) step
  ]

  -- Reading the first part of a text into a small type and the rest into a large one.
  pub scan-scan :
      (small large : ℕ) (xs ys : List ℕ) (a b v : ℕ)
      → 0 < base
      → All IsDigitOf xs
      → top (length xs) a < small
      → top (length xs) a < large
      → scan small xs a ≡ some b
      → scan large ys b ≡ some v
      → scan large (xs ++ ys) a ≡ some v
  scan-scan small large xs ys a b v pos ds f g h k =
      scan_append large xs ys a b (scan_resize small large xs a b pos ds f g h) ∙ k

  pub top_longer : (n m a : ℕ) → 0 < base → n ≤ m → top n a ≤ top m a
  top_longer zero m a pos h = top_le m a pos
  top_longer (suc n) zero a pos h = absurd (omega (arith, h))
  top_longer (suc n) (suc m) a pos h = top_longer n m (a * base + (base - 1)) pos (omega (arith, h))

  above_zero : (n : ℕ) → above n 0 ≡ 0
  above_zero zero = refl
  above_zero (suc n) = ap (above n) (zero-div base) ∙ above_zero n

  print_all_zero : (fuel : ℕ) (out : List ℕ) → print_all fuel 0 out ≡ out
  print_all_zero zero out = refl
  print_all_zero (suc fuel) out = refl

  print_all_step :
      (fuel v : ℕ) (out : List ℕ)
      → v ≢ 0
      → print_all (suc fuel) v out ≡ print_all fuel (v / base) (enc (v % base) ∷ out)
  print_all_step fuel v out h = let e : (v == 0) ≡ false = ground arith in rw (e, print_all) refl

  -- Printing with no leading zeros, of a number with suc n digits and the first of them not 0.
  pub print_all-print :
      (fuel n v : ℕ) (out : List ℕ)
      → n < fuel
      → above (suc n) v ≡ 0
      → above n v ≢ 0
      → print_all fuel v out ≡ print (suc n) v out
  print_all-print zero n v out h none_left some_left = absurd (omega (arith, h))
  print_all-print (suc fuel) zero v out h none_left some_left =
      print_all_step fuel v out some_left
      ∙ ap (λ k. print_all fuel k (enc (v % base) ∷ out)) none_left
      ∙ print_all_zero fuel (enc (v % base) ∷ out)
  print_all-print (suc fuel) (suc n) v out h none_left some_left =
      print_all_step fuel v out (λ e. some_left (ap (λ k. above (suc n) k) e ∙ above_zero (suc n)))
      ∙ print_all-print fuel n (v / base) (enc (v % base) ∷ out) (omega (arith, h)) none_left
          some_left

  -- A text of digits, the first of them not 0, is printed again from what was read.
  pub print_all-scan :
      (size fuel : ℕ) (c : ℕ) (cs : List ℕ) (v : ℕ)
      → 0 < base
      → All IsDigitOf (c ∷ cs)
      → dec c ≢ some 0
      → length cs < fuel
      → top (suc (length cs)) 0 < size
      → scan size (c ∷ cs) 0 ≡ some v
      → print_all fuel v [] ≡ c ∷ cs
  print_all-scan size fuel c cs v pos ds first long fits h = elim (Option-cases (dec c)) [
    | inl bad ↦ cc (scan_bad size c cs 0 bad)
    | inr (d, good) ↦
        let n = length cs in
        let (none_left, text, _) = scan-print size (c ∷ cs) 0 v [] pos ds fits h in
        let next = 0 * base + d in
        let whole : next ≡ d = omega arith in
        let most = top_mono n next (0 * base + (base - 1)) (omega (arith, (ds.0 d good).0)) in
        let kept : next % size ≡ next =
          mod-eq_of_lt (omega (arith, fits, most, top_le n next pos)) in
        let step = ap (scan size cs) (sym kept) ∙ sym (scan_good size c cs 0 d good) ∙ h in
        let (some_left, _, _) =
          scan-print size cs next v [] pos ds.1 (omega (arith, fits, most)) step in
        print_all-print fuel n v [] long none_left
          (λ e. first (good ∙ ap some (sym whole ∙ sym some_left ∙ e)))
        ∙ text
        ∙ append-nil (c ∷ cs)
  ]

  -- A number with n zeros behind it.
  abbrev pub pad : ℕ → ℕ → ℕ
  pad zero h = h
  pad (suc n) h = pad n h * base

  pub above-pad : (n h low : ℕ) → 0 < base → above n (pad n h + low) ≡ h + above n low
  above-pad zero h low pos = refl
  above-pad (suc n) h low pos =
      ap (above n) (mul-add-div_right pos (pad n h) low) ∙ above-pad n h (low / base) pos

  pub print-pad :
      (n h low : ℕ) (out : List ℕ) → 0 < base → print n (pad n h + low) out ≡ print n low out
  print-pad zero h low out pos = refl
  print-pad (suc n) h low out pos =
      ap₂ (λ v d. print n v (enc d ∷ out)) (mul-add-div_right pos (pad n h) low)
        (mul-add-mod_self_right (pad n h) base low)
      ∙ print-pad n h (low / base) (enc (low % base) ∷ out) pos
