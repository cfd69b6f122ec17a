-- ===== src/Pending/Pairs.antt =====
-- service/pending_list.h: pairs as keys, with a partial key that gives the first of a pair.
use mathlib.Core.Path.{ap₂}
use soa.Prelude.{◌≡◌, ◌⊎◌, inl, inr, refl, sym, ap, ◌∙◌, Bool, true, false, Bool-cases, arith}
use soa.Pending.Completion.{IsOrder, IsConvex, asym, is_yes, is_prefix_pair, pair_less}

is_yes-holds : {X : Type 0} (d : Dec X) → is_yes d ≡ true → X
is_yes-holds (yes x) h = x
is_yes-holds (no f) h = ground arith

is_yes-true : {X : Type 0} (d : Dec X) → X → is_yes d ≡ true
is_yes-true (yes y) x = refl
is_yes-true (no f) x = absurd (f x)

module _ {A B : Type 0} (lt1 : A → A → Bool) (lt2 : B → B → Bool) (o1 : IsOrder lt1) where
  pair_less_cases :
      (p q : A × B)
      → pair_less lt1 lt2 p q ≡ true
      → (lt1 p.0 q.0 ≡ true) ⊎ ((p.0 ≡ q.0) × (lt2 p.1 q.1 ≡ true))
  pair_less_cases p q h = elim (Bool-cases (lt1 p.0 q.0)) [
    | inl b ↦ inl b
    | inr b ↦ elim (Bool-cases (lt1 q.0 p.0)) [
      | inl c ↦ ground (arith, b, c, h)
      | inr c ↦ inr (o1.equal p.0 q.0 b c, ground (arith, b, c, h))
    ]
  ]

  by_first : (p q : A × B) → lt1 p.0 q.0 ≡ true → pair_less lt1 lt2 p q ≡ true
  by_first p q h = rw h refl

  by_second : (p q : A × B) → p.0 ≡ q.0 → lt2 p.1 q.1 ≡ true → pair_less lt1 lt2 p q ≡ true
  by_second p q e h =
      let same = ap (λ x. lt1 x p.0) (sym e) ∙ o1.irrefl p.0 in ground (arith, same, h)

  not_less : (p q : A × B) → pair_less lt1 lt2 p q ≡ true → lt1 q.0 p.0 ≡ false
  not_less p q h = elim (pair_less_cases p q h) [
    | inl b ↦ asym lt1 o1 p.0 q.0 b
    | inr (e, c) ↦ ap (λ x. lt1 x p.0) (sym e) ∙ o1.irrefl p.0
  ]

  pair_trans :
      (p q r : A × B)
      → IsOrder lt2
      → pair_less lt1 lt2 p q ≡ true
      → pair_less lt1 lt2 q r ≡ true
      → pair_less lt1 lt2 p r ≡ true
  pair_trans p q r o2 h k = elim (pair_less_cases p q h) [
    | inl b ↦ elim (pair_less_cases q r k) [
      | inl c ↦ by_first p r (o1.trans p.0 q.0 r.0 b c)
      | inr (e, c) ↦ by_first p r (ap (lt1 p.0) (sym e) ∙ b)
    ]
    | inr (e, b) ↦ elim (pair_less_cases q r k) [
      | inl c ↦ by_first p r (ap (λ x. lt1 x r.0) e ∙ c)
      | inr (f, c) ↦ by_second p r (e ∙ f) (o2.trans p.1 q.1 r.1 b c)
    ]
  ]

  not_by_first : (p q : A × B) → pair_less lt1 lt2 p q ≡ false → lt1 p.0 q.0 ≡ false
  not_by_first p q h = ground (arith, h)

  not_by_second :
      (p q : A × B)
      → pair_less lt1 lt2 p q ≡ false
      → pair_less lt1 lt2 q p ≡ false
      → lt2 p.1 q.1 ≡ false
  not_by_second p q h k = ground (arith, h, not_by_first q p k)

  pub pair_less-IsOrder : IsOrder lt2 → IsOrder (pair_less lt1 lt2)
  pair_less-IsOrder o2 = record {
    irrefl = λ p. ground (arith, o1.irrefl p.0, o2.irrefl p.1);
    trans = λ p q r h k. pair_trans p q r o2 h k;
    equal = λ p q h k.
        ap₂ (λ (a : A) (b : B). (a, b)) (o1.equal p.0 q.0 (not_by_first p q h) (not_by_first q p k))
          (o2.equal p.1 q.1 (not_by_second p q h k) (not_by_second q p k h));
  }

  -- The first of a pair is a prefix of all that lies between it and a pair that begins with it.
  pub is_prefix_pair-IsConvex :
      (dec : Discrete A) (k : A × B) → IsConvex (pair_less lt1 lt2) k (is_prefix_pair dec)
  is_prefix_pair-IsConvex dec k i j b c h =
      let same = is_yes-holds (dec j.0 k.0) h in
      is_yes-true (dec i.0 k.0)
        (o1.equal i.0 k.0 (not_less k i b) (ap (λ x. lt1 x i.0) (sym same) ∙ not_less i j c))
