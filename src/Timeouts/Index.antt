-- ===== src/Timeouts/Index.antt =====
-- `operator []` of service/timeout_map.h, with a default timeout and without one.
use mathlib.Core.Logic.{if_pos}
use soa.Prelude.{ℕ, ◌≡◌, refl, ◌∙◌, inl, inr, none, some, List, [], ◌∷◌, ok, err, arith}
use soa.Timeouts.{
  Date, null_date, plus_seconds, no_default_timeout, wild_iterator, Node, TimeoutMap, find, put,
}
use soa.Timeouts.Maps.{find-put}
use soa.Timeouts.Ops.{index, link, erase, unlink}
use soa.Timeouts.Refinement.{Abstract, Represents, write}
use soa.Timeouts.Moves.{link-Represents}
use soa.Timeouts.Calls.{key_cases}

module _ {K V : Type 0} (dec : Discrete K) where
  put-put :
      (k : K) (n o : Node V) (ns : List (K × Node V))
      → put dec k n (put dec k o ns) ≡ put dec k n ns
  unfolding put
  put-put k n o [] = ground arith
  put-put k n o ((j, p) ∷ ns) = ground (arith, put-put k n o ns)

  find-put_same :
      (k : K) (n : Node V) (ns : List (K × Node V)) → find dec k (put dec k n ns) ≡ some n
  find-put_same k n ns = find-put dec k k n ns ∙ if_pos (dec k k) refl (some n) (find dec k ns)

  erase_wild :
      (k : K) (n : Node V) (m : TimeoutMap K V)
      → find dec k m.nodes ≡ some n
      → n.timeout_it ≡ none
      → erase dec k m ≡ err wild_iterator
  unfolding erase unlink
  erase_wild k n m h e = rw (h, e, erase, unlink) refl

  module _ (default : V) (now : Date) (k : K) (m : TimeoutMap K V) (a : Abstract K V) where
    abbrev pub index_spec : ℕ → Abstract K V
    index_spec t = elim (a k) [
      | none ↦ write dec k (some (default, plus_seconds now t)) a
      | some x ↦ a
    ]

    abbrev fresh : Node V
    fresh = record { value = default; timeout = null_date; timeout_it = none }

    -- With a default timeout, on a map that stands for a function, `operator []` gives a key that is
    -- not there the default value and a deadline that is the default timeout from now. A key that is
    -- there, and all other keys, it leaves as they are. It does not throw.
    pub index_with_default :
        (t : ℕ)
        → Represents dec m a
        → m.default_timeout ≡ some t
        → ((index dec default now k m).0 ≡ ok tt)
          × Represents dec ((index dec default now k m).1) (index_spec t)
    unfolding index link
    index_with_default t r h = elim (key_cases dec default m a r k) [
      | inr (n, d, e, f, g) ↦ rw (e, index) (rw (g, index_spec) (refl, r))
      | inl (e, f, g) ↦
          rw (e, h, index)
            (rw (g, index_spec, put-put)
              (refl, link-Represents dec k fresh (plus_seconds now t) m a r f))
    ]

    -- Without a default timeout, on a map that stands for a function, `operator []` throws for a key
    -- that is not there, but it leaves a node for the key, and `erase` of that key then uses an
    -- iterator that was never set.
    pub index_without_default :
        Represents dec m a
        → m.default_timeout ≡ none
        → a k ≡ none
        → ((index dec default now k m).0 ≡ err no_default_timeout)
          × (erase dec k ((index dec default now k m).1) ≡ err wild_iterator)
    unfolding index
    index_without_default r h g = elim (key_cases dec default m a r k) [
      | inr (n, d, e, f, g') ↦ cc
      | inl (e, f, _) ↦
          rw (e, h, index)
            (
              refl,
              erase_wild k fresh (record m { nodes = put dec k fresh m.nodes })
                  (find-put_same k fresh m.nodes) refl,
            )
    ]
