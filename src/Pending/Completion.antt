-- ===== src/Pending/Completion.antt =====
-- service/pending_list.h: `completePrefix`, which looks for a key in the order of the map.
use soa.Prelude.{
  ◌≡◌, ◌⊎◌, inl, inr, refl, sym, ap, ◌∙◌, Bool, true, false, not, ◌&&◌, ◌||◌, Bool-cases, Option,
  none, some, List, [], ◌∷◌, All, All-imp, if◌then◌else◌, arith,
}
use soa.Timeouts.{Node}
use soa.Pending.{PendingList}

module _ {K V : Type 0} where
  abbrev pub HasKey : K → List (K × Node V) → Type 0
  HasKey j [] = ⊥
  HasKey j ((i, n) ∷ ns) = (i ≡ j) ⊎ HasKey j ns

  -- No key of the map passes a test.
  abbrev pub NonePasses : (K → Bool) → List (K × Node V) → Type 0
  NonePasses test ns = All (λ (e : K × Node V). test e.0 ≡ false) ns

module _ {K : Type 0} (lt : K → K → Bool) where
  -- The order of a `std::map`.
  pub record IsOrder : Type 0 where
    pub irrefl : (a : K) → lt a a ≡ false
    pub trans : (a b c : K) → lt a b ≡ true → lt b c ≡ true → lt a c ≡ true
    pub equal : (a b : K) → lt a b ≡ false → lt b a ≡ false → a ≡ b

  abbrev pub nearer : K → Option K → Option K
  nearer j none = some j
  nearer j (some i) = if lt i j then some i else some j

  module _ (o : IsOrder) where
    after_equal : (m i j : K) → lt m i ≡ false → lt m j ≡ true → j ≡ i → false ≡ true
    after_equal m i j a c e = sym a ∙ ap (lt m) (sym e) ∙ c

    pub asym : (a b : K) → lt a b ≡ true → lt b a ≡ false
    asym a b c = elim (Bool-cases (lt b a)) [
      | inr d ↦ d
      | inl d ↦ ground (arith, sym (o.irrefl a) ∙ o.trans a b a c d)
    ]

    not_before : (m i j : K) → lt m i ≡ false → lt i j ≡ false → lt m j ≡ false
    not_before m i j a b = elim (Bool-cases (lt m j)) [
      | inr c ↦ c
      | inl c ↦ elim (Bool-cases (lt j i)) [
        | inl d ↦ ground (arith, sym a ∙ o.trans m j i c d)
        | inr d ↦ ground (arith, after_equal m i j a c (o.equal j i d b))
      ]
    ]

  module _ (k : K) (is_prefix : K → K → Bool) where
    -- A key of the list that is not before `k`, and of which `k` is a prefix.
    abbrev pub matches : K → Bool
    matches j = not (lt j k) && is_prefix j k

    -- `k` is a prefix of all that lies between it and a key of which it is a prefix.
    abbrev pub IsConvex : Type 0
    IsConvex =
        (i j : K) → lt k i ≡ true → lt i j ≡ true → is_prefix j k ≡ true → is_prefix i k ≡ true

  module _ {V : Type 0} where
    -- The first key of a map that passes a test.
    unfoldable pub first_passing : (K → Bool) → List (K × Node V) → Option K
    first_passing test [] = none
    first_passing test ((j, n) ∷ ns) =
        let rest = first_passing test ns in if test j then nearer j rest else rest

    abbrev pub lower_bound : K → List (K × Node V) → Option K
    lower_bound k ns = first_passing (λ j. not (lt j k)) ns

    -- `boost::next`
    abbrev pub following_key : K → List (K × Node V) → Option K
    following_key i ns = first_passing (λ j. lt i j) ns

    unfoldable pub complete_prefix :
        {Store : Type 0} → K → (K → K → Bool) → K → PendingList K V Store → K
    complete_prefix default is_prefix k p = elim (lower_bound k p.timeouts.nodes) [
      | none ↦ default
      | some i ↦ if is_prefix i k then i else elim (following_key i p.timeouts.nodes) [
        | none ↦ default
        | some j ↦ if is_prefix j k then j else default
      ]
    ]

    -- A key passes a test, and no key of the map that passes it is before that one.
    pub record IsFirst (test : K → Bool) (j : K) (ns : List (K × Node V)) : Type 0 where
      pub there : HasKey j ns
      pub passes : test j ≡ true
      pub first : All (λ (e : K × Node V). test e.0 ≡ true → lt e.0 j ≡ false) ns

    abbrev pub FirstOrNone : (K → Bool) → Option K → List (K × Node V) → Type 0
    FirstOrNone test none ns = NonePasses test ns
    FirstOrNone test (some j) ns = IsFirst test j ns

    module _ (o : IsOrder) where
      nearer-FirstOrNone :
          (test : K → Bool) (j : K) (n : Node V) (found : Option K) (ns : List (K × Node V))
          → test j ≡ true
          → FirstOrNone test found ns
          → FirstOrNone test (nearer j found) ((j, n) ∷ ns)
      nearer-FirstOrNone test j n none ns t h = record {
        there = inl refl;
        passes = t;
        first = (λ h. o.irrefl j, All-imp _ _ ns (λ e f g. ground (arith, f, g)) h);
      }
      nearer-FirstOrNone test j n (some i) ns t h = elim (Bool-cases (lt i j)) [
        | inl b ↦ rw b (record {
          there = inr h.there;
          passes = h.passes;
          first = (λ g. asym o i j b, h.first);
        })
        | inr b ↦ rw b (record {
          there = inl refl;
          passes = t;
          first = (λ g. o.irrefl j, All-imp _ _ ns (λ e f g. not_before o e.0 i j (f g) b) h.first);
        })
      ]

      FirstOrNone-skip :
          (test : K → Bool) (j : K) (n : Node V) (found : Option K) (ns : List (K × Node V))
          → test j ≡ false
          → FirstOrNone test found ns
          → FirstOrNone test found ((j, n) ∷ ns)
      FirstOrNone-skip test j n none ns f h = (f, h)
      FirstOrNone-skip test j n (some i) ns f h = record {
        there = inr h.there;
        passes = h.passes;
        first = (λ t. ground (arith, sym f ∙ t), h.first);
      }

      pub first_passing-FirstOrNone :
          (test : K → Bool) (ns : List (K × Node V)) → FirstOrNone test (first_passing test ns) ns
      unfolding first_passing
      first_passing-FirstOrNone test [] = tt
      first_passing-FirstOrNone test ((j, n) ∷ ns) =
          let ih = first_passing-FirstOrNone test ns in
          elim (Bool-cases (test j)) [
            | inl b ↦ rw b (nearer-FirstOrNone test j n (first_passing test ns) ns b ih)
            | inr b ↦ rw b (FirstOrNone-skip test j n (first_passing test ns) ns b ih)
          ]

abbrev pub is_yes : {X : Type 0} → Dec X → Bool
is_yes (yes x) = true
is_yes (no f) = false

-- `IsPrefixPair`
abbrev pub is_prefix_pair : {A B : Type 0} → Discrete A → A × B → A × B → Bool
is_prefix_pair dec p q = is_yes (dec p.0 q.0)

-- `operator <` of `std::pair`
abbrev pub pair_less : {A B : Type 0} → (A → A → Bool) → (B → B → Bool) → A × B → A × B → Bool
pair_less lt1 lt2 p q = lt1 p.0 q.0 || (not (lt1 q.0 p.0) && lt2 p.1 q.1)
