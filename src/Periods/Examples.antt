-- ===== src/Periods/Examples.antt =====
-- The theorems about units of time at concrete units.
use soa.Prelude.{◌≡◌, refl, err}
use soa.Periods.{hours, days, weeks, months, granularity_multiplier, can_translate, never_here}
use soa.Periods.Translations.{quotient, granularity_multiplier_lem}

granularity_multiplier_lem_example : granularity_multiplier weeks hours ≡ quotient weeks hours
granularity_multiplier_lem_example = granularity_multiplier_lem weeks hours

never : granularity_multiplier months days ≡ err never_here
unfolding granularity_multiplier can_translate
never = refl
