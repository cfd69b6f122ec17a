-- ===== src/Periods/Translations.antt =====
-- types/periodic_utils.cc: `granularityMultiplier` by the lengths of the units.
use soa.Prelude.{
  ℕ, ◌*◌, ◌/◌, ◌≡◌, refl, sym, ap, ◌∙◌, Bool, true, false, ◌&&◌, ok, err, ltb, leb, ◌==◌,
  if◌then◌else◌, arith,
}
use soa.Periods.{
  TimeGranularity, milliseconds, seconds, minutes, hours, days, weeks, months, years, Fault,
  not_found, too_high, negative, incompatible, not_bigger, never_here, Result, code_of,
  granularity_multiplier, can_translate,
}

-- A unit by the number of the smallest units of its family, milliseconds or months.
abbrev pub length_of : TimeGranularity → ℕ
length_of milliseconds = 1
length_of seconds = 1000
length_of minutes = 60000
length_of hours = 3600000
length_of days = 86400000
length_of weeks = 604800000
length_of months = 1
length_of years = 12

abbrev pub by_months : TimeGranularity → Bool
by_months months = true
by_months years = true
by_months _ = false

abbrev pub same_bool : Bool → Bool → Bool
same_bool true b = b
same_bool false true = false
same_bool false false = true

-- The multiplier is a quotient of lengths; from one family to the other there is none.
abbrev pub quotient : TimeGranularity → TimeGranularity → Result ℕ
quotient source dest =
    if same_bool (by_months source) (by_months dest) && leb (length_of dest) (length_of source)
    then ok (length_of source / length_of dest)
    else if code_of source == 6 && ltb (code_of dest) 6
    then err never_here
    else err incompatible

abbrev fault_code : Fault → ℕ
fault_code not_found = 0
fault_code too_high = 1
fault_code negative = 2
fault_code incompatible = 3
fault_code not_bigger = 4
fault_code never_here = 5

abbrev same_result : Result ℕ → Result ℕ → Bool
same_result (ok m) (ok n) = m == n
same_result (err e) (err f) = fault_code e == fault_code f
same_result _ _ = false

same_result_never : (x : Result ℕ) → same_result x (err never_here) ≡ true → x ≡ err never_here
same_result_never (ok m) h = cc
same_result_never (err never_here) h = refl
same_result_never (err not_found) h = cc
same_result_never (err too_high) h = cc
same_result_never (err negative) h = cc
same_result_never (err incompatible) h = cc
same_result_never (err not_bigger) h = cc

same_result_incompatible :
    (x : Result ℕ) → same_result x (err incompatible) ≡ true → x ≡ err incompatible
same_result_incompatible (ok m) h = cc
same_result_incompatible (err never_here) h = cc
same_result_incompatible (err not_found) h = cc
same_result_incompatible (err too_high) h = cc
same_result_incompatible (err negative) h = cc
same_result_incompatible (err incompatible) h = refl
same_result_incompatible (err not_bigger) h = cc

same_result_ok : (x : Result ℕ) (n : ℕ) → same_result x (ok n) ≡ true → x ≡ ok n
same_result_ok (ok m) n h = let e : m ≡ n = ground arith in ap ok e
same_result_ok (err e) n h = cc

-- A test of every unit.
abbrev each : (TimeGranularity → Bool) → Bool
each p =
    p milliseconds
    && (p seconds && (p minutes && (p hours && (p days && (p weeks && (p months && p years))))))

each-at : (p : TimeGranularity → Bool) (g : TimeGranularity) → each p ≡ true → p g ≡ true
each-at p milliseconds h = ground arith
each-at p seconds h = ground arith
each-at p minutes h = ground arith
each-at p hours h = ground arith
each-at p days h = ground arith
each-at p weeks h = ground arith
each-at p months h = ground arith
each-at p years h = ground arith

all_quotients :
    each (λ s. each (λ d. same_result (granularity_multiplier s d) (quotient s d))) ≡ true
unfolding granularity_multiplier can_translate
all_quotients = refl

agrees : (s d : TimeGranularity) → same_result (granularity_multiplier s d) (quotient s d) ≡ true
agrees s d =
    each-at (λ d. same_result (granularity_multiplier s d) (quotient s d)) d
      (each-at (λ s. each (λ d. same_result (granularity_multiplier s d) (quotient s d))) s
        all_quotients)

same_result-eq :
    (x : Result ℕ) (b c : Bool) (n : ℕ)
    → same_result x (if b then ok n else if c then err never_here else err incompatible) ≡ true
    → x ≡ (if b then ok n else if c then err never_here else err incompatible)
same_result-eq x true c n h = same_result_ok x n h
same_result-eq x false true n h = same_result_never x h
same_result-eq x false false n h = same_result_incompatible x h

-- granularityMultiplier gives the quotient of the lengths of two units, where they are of one family and
-- the first is not the shorter one; otherwise it throws, from months to a unit of the other family by
-- the exception that is never to come.
pub granularity_multiplier_lem :
    (source dest : TimeGranularity) → granularity_multiplier source dest ≡ quotient source dest
granularity_multiplier_lem source dest =
    same_result-eq (granularity_multiplier source dest) _ _ _ (agrees source dest)

abbrev chain : Result ℕ → Result ℕ → Result ℕ → Bool
chain (ok m) (ok n) x = same_result x (ok (m * n))
chain _ _ x = true

abbrev chained : TimeGranularity → TimeGranularity → TimeGranularity → Bool
chained a b c = chain (quotient a b) (quotient b c) (quotient a c)

all_chained : each (λ a. each (λ b. each (λ c. chained a b c))) ≡ true
all_chained = refl

chain-ok : (x y z : Result ℕ) (m n : ℕ) → chain x y z ≡ true → x ≡ ok m → y ≡ ok n → z ≡ ok (m * n)
chain-ok x y z m n h e f =
    same_result_ok z (m * n)
      (ap (λ w. chain w (ok n) z) (sym e) ∙ ap (λ w. chain x w z) (sym f) ∙ h)

-- What is translated from one unit to a second, and from there to a third, is translated from the first
-- to the third, by the product of the multipliers.
pub granularity_multiplier_trans :
    (a b c : TimeGranularity) (m n : ℕ)
    → granularity_multiplier a b ≡ ok m
    → granularity_multiplier b c ≡ ok n
    → granularity_multiplier a c ≡ ok (m * n)
granularity_multiplier_trans a b c m n e f =
    let tested =
      each-at (λ c. chained a b c) c
        (each-at (λ b. each (λ c. chained a b c)) b
          (each-at (λ a. each (λ b. each (λ c. chained a b c))) a all_chained)) in
    granularity_multiplier_lem a c
    ∙ chain-ok (quotient a b) (quotient b c) (quotient a c) m n tested
        (sym (granularity_multiplier_lem a b) ∙ e) (sym (granularity_multiplier_lem b c) ∙ f)
