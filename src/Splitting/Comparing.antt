-- ===== src/Splitting/Comparing.antt =====
-- logger/log_message_splitter.h: the comparison of a field with a text.
use soa.Prelude.{
  ℕ, ◌≡◌, ◌≢◌, ◌↔◌, refl, sym, ap, ◌∙◌, true, false, List, [], ◌∷◌, ◌++◌, All, ◌==◌, ◌||◌, &&-both,
  arith,
}
use soa.Splitting.{field_equals}

begins :
    (field text : List ℕ)
    → All (λ c. c ≢ 0) field
    → field_equals field text ≡ true
    → (rest : List ℕ) × (text ≡ field ++ rest)
unfolding field_equals
begins [] text filled h = (text, refl)
begins (c ∷ cs) [] (other, filled) h = let z : c ≡ 0 = ground arith in absurd (other z)
begins (c ∷ cs) (d ∷ ds) (other, filled) h =
    let (first, more) = &&-both (c == d) (c == 0 || field_equals cs ds) h in
    let same : d ≡ c = ground arith in
    let no_end : (c == 0) ≡ false = ground arith in
    let (rest, e) = begins cs ds filled (ap (λ b. b || field_equals cs ds) (sym no_end) ∙ more) in
    (rest, ap (λ x. x ∷ ds) same ∙ ap (λ t. c ∷ t) e)

beginning : (field rest : List ℕ) → field_equals field (field ++ rest) ≡ true
unfolding field_equals
beginning [] rest = refl
beginning (c ∷ cs) rest =
    let e : (c == c) ≡ true = ground arith in let more = beginning cs rest in ground arith

-- A field without a zero byte compares equal to a text exactly where the text begins with it: to every
-- longer text as well, and an empty field to any text.
pub field_equals_lem :
    (field text : List ℕ)
    → All (λ c. c ≢ 0) field
    → (field_equals field text ≡ true) ↔ ((rest : List ℕ) × (text ≡ field ++ rest))
field_equals_lem field text filled =
    (begins field text filled, λ (rest, e). ap (field_equals field) e ∙ beginning field rest)
