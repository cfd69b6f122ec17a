-- ===== src/Pending/Prefixes.antt =====
-- service/pending_list.h: what `completePrefix` finds.
use soa.Prelude.{
  ◌≡◌, ◌⊎◌, inl, inr, refl, sym, ap, ◌∙◌, Bool, true, false, not, Bool-cases, Option, none, some,
  List, All-imp, All-imp_both, if◌then◌else◌, arith,
}
use soa.Timeouts.{Node}
use soa.Pending.{PendingList}
use soa.Pending.Completion.{
  IsOrder, lower_bound, following_key, complete_prefix, IsFirst, NonePasses, FirstOrNone,
  first_passing-FirstOrNone, matches, IsConvex, asym,
}

module _ {K : Type 0} (lt : K → K → Bool) (k : K) (is_prefix : K → K → Bool) (o : IsOrder lt) where
  different : (i m : K) → is_prefix i k ≡ false → is_prefix m k ≡ true → m ≡ i → false ≡ true
  different i m f h e = sym f ∙ ap (λ x. is_prefix x k) (sym e) ∙ h

  matches-after :
      (i m : K) → is_prefix i k ≡ false → is_prefix m k ≡ true → lt m i ≡ false → lt i m ≡ true
  matches-after i m f h a = elim (Bool-cases (lt i m)) [
    | inl b ↦ b
    | inr b ↦ ground (arith, different i m f h (o.equal m i a b))
  ]

  after_bound : (i j : K) → lt i k ≡ false → lt i j ≡ true → lt k j ≡ true
  after_bound i j a b = elim (Bool-cases (lt k j)) [
    | inl c ↦ c
    | inr c ↦ elim (Bool-cases (lt j k)) [
      | inl d ↦ ground (arith, sym a ∙ o.trans i j k b d)
      | inr d ↦ ground (arith, sym a ∙ ap (lt i) (o.equal k j c d) ∙ b)
    ]
  ]

  -- Behind a key of which `k` is no prefix, and which is after `k`, nothing matches.
  no_match_past :
      (j m : K)
      → IsConvex lt k is_prefix
      → lt k j ≡ true
      → is_prefix j k ≡ false
      → lt m j ≡ false
      → is_prefix m k ≡ false
  no_match_past j m convex a f c = elim (Bool-cases (is_prefix m k)) [
    | inr h ↦ h
    | inl h ↦ ground (arith, sym f ∙ convex j m a (matches-after j m f h c) h)
  ]

  not_matching :
      (i m : K)
      → is_prefix i k ≡ false
      → (not (lt m k) ≡ true → lt m i ≡ false)
      → (lt i m ≡ true → is_prefix m k ≡ false)
      → matches lt k is_prefix m ≡ false
  not_matching i m f a c = elim (Bool-cases (lt m k)) [
    | inl b ↦ rw b refl
    | inr b ↦ rw b (elim (Bool-cases (is_prefix m k)) [
      | inr h ↦ h
      | inl h ↦ c (matches-after i m f h (a (ap not b)))
    ])
  ]

  module _ {V : Type 0} (ns : List (K × Node V)) where
    at_bound :
        (i : K)
        → is_prefix i k ≡ true
        → IsFirst lt (λ j. not (lt j k)) i ns
        → IsFirst lt (matches lt k is_prefix) i ns
    at_bound i b h = record {
      there = h.there;
      passes = ground (arith, b, h.passes);
      first = All-imp _ _ ns (λ e f g. f (ground (arith, g))) h.first;
    }

    none_at_end :
        (i : K)
        → is_prefix i k ≡ false
        → IsFirst lt (λ m. not (lt m k)) i ns
        → NonePasses (λ m. lt i m) ns
        → NonePasses (matches lt k is_prefix) ns
    none_at_end i f h n =
        All-imp_both _ _ _ ns (λ e a c. not_matching i e.0 f a (λ q. ground (arith, c, q))) h.first
          n

    at_next :
        (i j : K)
        → is_prefix i k ≡ false
        → is_prefix j k ≡ true
        → IsFirst lt (λ m. not (lt m k)) i ns
        → IsFirst lt (λ m. lt i m) j ns
        → IsFirst lt (matches lt k is_prefix) j ns
    at_next i j f b h n = record {
      there = n.there;
      passes =
          ground (arith, b, asym lt o k j (after_bound i j (ground (arith, h.passes)) n.passes));
      first =
          All-imp_both _ _ _ ns
            (λ e a c g. c (matches-after i e.0 f (ground (arith, g)) (a (ground (arith, g)))))
            h.first n.first;
    }

    none_past_next :
        (i j : K)
        → IsConvex lt k is_prefix
        → is_prefix i k ≡ false
        → is_prefix j k ≡ false
        → IsFirst lt (λ m. not (lt m k)) i ns
        → IsFirst lt (λ m. lt i m) j ns
        → NonePasses (matches lt k is_prefix) ns
    none_past_next i j convex f g h n =
        All-imp_both _ _ _ ns
          (λ e a c. not_matching i e.0 f a (λ q.
            no_match_past j e.0 convex (after_bound i j (ground (arith, h.passes)) n.passes) g
              (c q)))
          h.first n.first

    -- What is found is the first key that matches, or the default where none does.
    abbrev Completes : K → K → Type 0
    Completes default r =
        IsFirst lt (matches lt k is_prefix) r ns
        ⊎ ((r ≡ default) × NonePasses (matches lt k is_prefix) ns)

    look_further :
        (default i : K) (next : Option K)
        → IsConvex lt k is_prefix
        → is_prefix i k ≡ false
        → IsFirst lt (λ m. not (lt m k)) i ns
        → FirstOrNone lt (λ m. lt i m) next ns
        → Completes default
            (elim next [ none ↦ default | some j ↦ if is_prefix j k then j else default ])
    look_further default i none convex f h n = inr (refl, none_at_end i f h n)
    look_further default i (some j) convex f h n = elim (Bool-cases (is_prefix j k)) [
      | inl g ↦ rw g (inl (at_next i j f g h n))
      | inr g ↦ rw g (inr (refl, none_past_next i j convex f g h n))
    ]

    look :
        (default : K) (bound : Option K)
        → IsConvex lt k is_prefix
        → FirstOrNone lt (λ m. not (lt m k)) bound ns
        → Completes default (elim bound [
          | none ↦ default
          | some i ↦ if is_prefix i k then i else elim (following_key lt i ns) [
            | none ↦ default
            | some j ↦ if is_prefix j k then j else default
          ]
        ])
    look default none convex h = inr (refl, All-imp _ _ ns (λ e f. ground (arith, f)) h)
    look default (some i) convex h = elim (Bool-cases (is_prefix i k)) [
      | inl f ↦ rw f (inl (at_bound i f h))
      | inr f ↦ rw f (
          look_further default i (following_key lt i ns) convex f h
            (first_passing-FirstOrNone lt o (λ j. lt i j) ns))
    ]

  -- Where a partial key is a prefix of all keys between it and one of which it is a prefix, completePrefix
  -- finds the first key of the list, in the order of the map, that is not before the partial key and
  -- of which it is a prefix. Where there is none it gives the default key.
  pub complete_prefix-IsFirst :
      {V Store : Type 0} (default : K) (p : PendingList K V Store)
      → IsConvex lt k is_prefix
      → IsFirst lt
          (matches lt k is_prefix)
          (complete_prefix lt default is_prefix k p)
          p.timeouts.nodes
        ⊎ ((complete_prefix lt default is_prefix k p ≡ default)
            × NonePasses (matches lt k is_prefix) p.timeouts.nodes)
  unfolding complete_prefix
  complete_prefix-IsFirst default p convex =
      look p.timeouts.nodes default (lower_bound lt k p.timeouts.nodes) convex
        (first_passing-FirstOrNone lt o (λ j. not (lt j k)) p.timeouts.nodes)
