-- ===== src/Periods.antt =====
-- types/periodic_utils.h, types/periodic_utils.cc: units of time and their translation. Numbers are
-- without a bound; steps below zero are counted down.
pub mod Translations
pub mod Steps
mod Examples
use soa.Prelude.{
  ℕ, zero, suc, ◌+◌, ◌-◌, ◌*◌, Bool, true, false, Option, none, some, List, [], ◌∷◌, Outcome, ok,
  err, ◌>>=◌, ◌>>◌, check, not, ltb, leb, ◌==◌, get_elem?, if◌then◌else◌,
}

pub data TimeGranularity : Type 0 where
  milliseconds seconds minutes hours days weeks months years : TimeGranularity

pub data Fault : Type 0 where
  not_found too_high negative incompatible not_bigger never_here : Fault

abbrev pub Result : Type 0 → Type 0
Result A = Outcome Fault A

-- The number of a unit in the enumeration.
abbrev pub code_of : TimeGranularity → ℕ
code_of milliseconds = 0
code_of seconds = 1
code_of minutes = 2
code_of hours = 3
code_of days = 4
code_of weeks = 5
code_of months = 6
code_of years = 7

abbrev pub granularities : List TimeGranularity
granularities = milliseconds ∷ seconds ∷ minutes ∷ hours ∷ days ∷ weeks ∷ months ∷ years ∷ []

-- `granularityIndex`, from an index on.
abbrev pub index_from : List TimeGranularity → ℕ → TimeGranularity → Result ℕ
index_from [] i g = err not_found
index_from (h ∷ hs) i g = if code_of h == code_of g then ok i else index_from hs (i + 1) g

abbrev pub granularity_index : TimeGranularity → Result ℕ
granularity_index g = index_from granularities 0 g

abbrev pub granularity_at : ℕ → Result TimeGranularity
granularity_at i = elim (get_elem? granularities i) [ none ↦ err not_found | some g ↦ ok g ]

-- `operator +` with a number of steps from zero up, and with one below zero.
unfoldable pub step_up : TimeGranularity → ℕ → Result TimeGranularity
step_up g steps =
    granularity_index g >>= λ i. (check (ltb (i + steps) 8) too_high >> granularity_at (i + steps))

unfoldable pub step_down : TimeGranularity → ℕ → Result TimeGranularity
step_down g steps =
    granularity_index g >>= λ i. (check (leb steps i) negative >> granularity_at (i - steps))

unfoldable pub can_translate : TimeGranularity → TimeGranularity → Result Bool
can_translate source dest =
    if code_of source == code_of dest
    then ok true
    else if ltb (code_of source) (code_of dest)
    then ok false
    else if ltb (code_of source) (code_of months)
    then ok true
    else if code_of source == code_of years
    then ok (code_of dest == code_of months)
    else err never_here

abbrev pub ms_mults : List ℕ
ms_mults = 1000 ∷ 60 ∷ 60 ∷ 24 ∷ 7 ∷ []

abbrev pub months_mults : List ℕ
months_mults = 12 ∷ []

-- The product of the multipliers from an index on, as many as there are steps.
abbrev pub multiply : List ℕ → ℕ → ℕ → ℕ → ℕ
multiply mults zero i m = m
multiply mults (suc steps) i m =
    multiply mults steps (i + 1) (m * elim (get_elem? mults i) [ none ↦ 0 | some k ↦ k ])

unfoldable pub granularity_multiplier : TimeGranularity → TimeGranularity → Result ℕ
unfolding can_translate
granularity_multiplier source dest = can_translate source dest >>= λ can.
    (check can incompatible
      >> (granularity_index dest >>= λ from. granularity_index source >>= λ to.
          (check (leb from to) not_bigger
            >> (let offset = if leb 6 from then 6 else 0 in
                let mults =
                  if ltb (code_of source) (code_of months) then ms_mults else months_mults in
                ok (multiply mults (to - from) (from - offset) 1)))))

unfoldable pub translate : TimeGranularity → ℕ → TimeGranularity → Result ℕ
unfolding granularity_multiplier
translate source period dest = granularity_multiplier source dest >>= λ m. ok (period * m)
