-- ===== src/Periods/Steps.antt =====
-- types/periodic_utils.h, types/periodic_utils.cc: steps from unit to unit.
use soa.Prelude.{
  ℕ, zero, suc, ◌+◌, ◌-◌, ◌≡◌, refl, sym, ap, Bool, true, false, ok, err, check, ◌>>◌, ltb, leb,
  arith,
}
use soa.Periods.{
  TimeGranularity, milliseconds, seconds, minutes, hours, days, weeks, months, years, Fault,
  too_high, Result, code_of, granularity_index, granularity_at, step_up, step_down,
}

granularity_index_code : (g : TimeGranularity) → granularity_index g ≡ ok (code_of g)
granularity_index_code milliseconds = refl
granularity_index_code seconds = refl
granularity_index_code minutes = refl
granularity_index_code hours = refl
granularity_index_code days = refl
granularity_index_code weeks = refl
granularity_index_code months = refl
granularity_index_code years = refl

granularity_at_code : (g : TimeGranularity) → granularity_at (code_of g) ≡ ok g
granularity_at_code milliseconds = refl
granularity_at_code seconds = refl
granularity_at_code minutes = refl
granularity_at_code hours = refl
granularity_at_code days = refl
granularity_at_code weeks = refl
granularity_at_code months = refl
granularity_at_code years = refl

abbrev code_result : Result TimeGranularity → ℕ
code_result (ok g) = code_of g
code_result (err e) = 8

code-granularity_at : (i : ℕ) (g : TimeGranularity) → granularity_at i ≡ ok g → code_of g ≡ i
code-granularity_at zero g e = sym (ap code_result e)
code-granularity_at (suc zero) g e = sym (ap code_result e)
code-granularity_at (suc (suc zero)) g e = sym (ap code_result e)
code-granularity_at (suc (suc (suc zero))) g e = sym (ap code_result e)
code-granularity_at (suc (suc (suc (suc zero)))) g e = sym (ap code_result e)
code-granularity_at (suc (suc (suc (suc (suc zero))))) g e = sym (ap code_result e)
code-granularity_at (suc (suc (suc (suc (suc (suc zero)))))) g e = sym (ap code_result e)
code-granularity_at (suc (suc (suc (suc (suc (suc (suc zero))))))) g e = sym (ap code_result e)
code-granularity_at (suc (suc (suc (suc (suc (suc (suc (suc i)))))))) g e = cc

check-ok :
    {A : Type 0} (b : Bool) (f : Fault) (x : Result A) (a : A) → check b f >> x ≡ ok a → x ≡ ok a
check-ok true f x a h = h
check-ok false f x a h = cc

code-step_up : (g h : TimeGranularity) (n : ℕ) → step_up g n ≡ ok h → code_of h ≡ code_of g + n
unfolding step_up
code-step_up g h n e = code-granularity_at (code_of g + n) h (
    check-ok (ltb (code_of g + n) 8) too_high (granularity_at (code_of g + n)) h
      (rw (granularity_index_code g) at e))

-- Steps up are taken back by as many steps down.
pub step_down-step_up : (g h : TimeGranularity) (n : ℕ) → step_up g n ≡ ok h → step_down h n ≡ ok g
unfolding step_down
step_down-step_up g h n e =
    let up = code-step_up g h n e in
    let enough : leb n (code_of h) ≡ true = ground (arith, up) in
    let back : code_of h - n ≡ code_of g = omega (arith, up) in
    rw (granularity_index_code h, enough, back) (granularity_at_code g)
