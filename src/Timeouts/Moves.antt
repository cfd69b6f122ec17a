-- ===== src/Timeouts/Moves.antt =====
-- The changes that the operations make, as changes of the function that a map stands for.
use mathlib.Core.Logic.{ite, if_pos, if_neg}
use soa.Prelude.{
  ◌≡◌, refl, ap, subst, ◌∙◌, true, inl, inr, ◌⊎◌, Option, none, some, List, [], ◌∷◌, ok, arith,
}
use soa.Timeouts.{
  Date, finite, infinite, date_le, Node, TimeoutMap, insert_timeout, first_date, earlier, find, put,
  erase_timeout, due,
}
use soa.Timeouts.Maps.{
  find-put, find-remove, due-erase_timeout, due-insert_timeout, insert_timeout-Unique,
  erase_timeout-Unique, insert_timeout-Sorted, erase_timeout-Sorted, date_le_trans,
}
use soa.Timeouts.Ops.{link, relink, unlink}
use mathlib.Core.Path.{subst₂}
use soa.Timeouts.Refinement.{
  Linked, value_until, Abstract, Represents, Matches, write, Linked-cases,
}

earlier-le : (d e : Date) → (date_le (earlier d e) d ≡ true) × (date_le (earlier d e) e ≡ true)
earlier-le (finite a) (finite b) = ground arith
earlier-le (finite a) infinite = ground arith
earlier-le infinite (finite b) = ground arith
earlier-le infinite infinite = ground arith

date_le_refl : (d : Date) → date_le d d ≡ true
date_le_refl (finite a) = ground arith
date_le_refl infinite = refl

module _ {K : Type 0} where
  first-insert_timeout :
      (d : Date) (k : K) (ts : List (Date × K))
      → (first_date (insert_timeout d k ts) ≡ d)
        ⊎ (first_date (insert_timeout d k ts) ≡ first_date ts)
  unfolding insert_timeout
  first-insert_timeout d k [] = inl refl
  first-insert_timeout d k ((e, j) ∷ ts) = ground arith

  pub link-early :
      (d e : Date) (k : K) (ts : List (Date × K))
      → date_le e (first_date ts) ≡ true
      → date_le (earlier d e) (first_date (insert_timeout d k ts)) ≡ true
  link-early d e k ts h = elim (first-insert_timeout d k ts) [
    | inl new ↦ rw new ((earlier-le d e).0)
    | inr old ↦ rw old (date_le_trans (earlier d e) e (first_date ts) ((earlier-le d e).1) h)
  ]

both_ite :
    {P A B : Type 0} (R : A → B → Type 0) (c : Dec P) (x y : A) (u v : B)
    → R x u
    → R y v
    → R (ite c x y) (ite c u v)
both_ite R (yes p) x y u v h k = h
both_ite R (no p) x y u v h k = k

pub ite-ite : {P A : Type 0} (c : Dec P) (x y z : A) → ite c x (ite c y z) ≡ ite c x z
ite-ite (yes p) x y z = refl
ite-ite (no p) x y z = refl

value_until-ite :
    {P V : Type 0} (c : Dec P) (x y : Option (Node V)) (u v : Option Date)
    → value_until (ite c x y) (ite c u v) ≡ ite c (value_until x u) (value_until y v)
value_until-ite (yes p) x y u v = refl
value_until-ite (no p) x y u v = refl

module _ {K : Type 0} (dec : Discrete K) where
  pub due-erased : (k : K) (ts : List (Date × K)) → due dec k (erase_timeout dec k ts) ≡ none
  due-erased k ts = due-erase_timeout dec k k ts ∙ if_pos (dec k k) refl none (due dec k ts)

  due-relinked :
      (d : Date) (k j : K) (ts : List (Date × K))
      → due dec j (insert_timeout d k (erase_timeout dec k ts))
        ≡ ite (dec k j) (some d) (due dec j ts)
  due-relinked d k j ts =
      due-insert_timeout dec d k j (erase_timeout dec k ts) (due-erased k ts)
      ∙ ap (ite (dec k j) (some d)) (due-erase_timeout dec k j ts)
      ∙ ite-ite (dec k j) (some d) none (due dec j ts)

module _ {K V : Type 0} (dec : Discrete K) where
  -- A key that was not there gets a node and a deadline.
  pub link-Represents :
      (k : K) (n : Node V) (d : Date) (m : TimeoutMap K V) (a : Abstract K V)
      → Represents dec m a
      → due dec k m.timeouts ≡ none
      → Represents dec (link dec k n d m) (write dec k (some (n.value, d)) a)
  unfolding link
  link-Represents k n d m a r h = record {
    is_linked = record {
      linked = λ j.
          rw (find-put dec k j n' m.nodes, due-insert_timeout dec d k j m.timeouts h)
            (both_ite Linked (dec k j) (some n') (find dec j m.nodes) (some d)
              (due dec j m.timeouts) refl (r.is_linked.linked j));
      sorted = insert_timeout-Sorted d k m.timeouts r.is_linked.sorted;
      unique = insert_timeout-Unique dec d k m.timeouts h r.is_linked.unique;
      early = link-early d m.earliest k m.timeouts r.is_linked.early;
    };
    same = λ j.
        rw (find-put dec k j n' m.nodes, due-insert_timeout dec d k j m.timeouts h)
          (value_until-ite (dec k j) (some n') (find dec j m.nodes) (some d) (due dec j m.timeouts)
            ∙ ap (ite (dec k j) (some (n.value, d))) (r.same j));
  }
    where
      n' : Node V
      n' = record n { timeout_it = some d }

  pub linked_at :
      (k : K) (n : Node V) (m : TimeoutMap K V) (a : Abstract K V)
      → Represents dec m a
      → find dec k m.nodes ≡ some n
      → (d : Date) × (due dec k m.timeouts ≡ some d) × (n.timeout_it ≡ some d)
  linked_at k n m a r h =
      elim (Linked-cases (find dec k m.nodes) (due dec k m.timeouts) (r.is_linked.linked k)) [
        | inl (e, _) ↦ cc
        | inr (n', d, e, f, it) ↦ (d, f, cc)
      ]

  -- What is left without a key.
  pub unlink-Matches :
      (k : K) (n : Node V) (m : TimeoutMap K V) (a : Abstract K V)
      → Represents dec m a
      → find dec k m.nodes ≡ some n
      → Matches dec (unlink dec k n m) (ok (write dec k none a))
  unfolding unlink
  unlink-Matches k n m a r h =
      let (d, _, it) = linked_at k n m a r h in
      rw (it, unlink)
        (record {
          is_linked = record {
            linked = λ j.
                rw (find-remove dec k j m.nodes, due-erase_timeout dec k j m.timeouts)
                  (both_ite Linked (dec k j) none (find dec j m.nodes) none (due dec j m.timeouts)
                    tt (r.is_linked.linked j));
            sorted = erase_timeout-Sorted dec k m.timeouts r.is_linked.sorted;
            unique = erase_timeout-Unique dec k m.timeouts r.is_linked.unique;
            early = date_le_refl (first_date (erase_timeout dec k m.timeouts));
          };
          same = λ j.
              rw (find-remove dec k j m.nodes, due-erase_timeout dec k j m.timeouts)
                (value_until-ite (dec k j) none (find dec j m.nodes) none (due dec j m.timeouts)
                  ∙ ap (ite (dec k j) none) (r.same j));
        })

  -- A key that gets another deadline.
  pub relink-Matches :
      (k : K) (n : Node V) (d : Date) (m : TimeoutMap K V) (a : Abstract K V)
      → Represents dec m a
      → find dec k m.nodes ≡ some n
      → Matches dec (relink dec k n d m) (ok (write dec k (some (n.value, d)) a))
  unfolding relink
  relink-Matches k n d m a r h =
      let (old, _, it) = linked_at k n m a r h in
      let n' : Node V = record n { timeout_it = some d } in
      let ts = insert_timeout d k (erase_timeout dec k m.timeouts) in
      rw (it, relink)
        (record {
          is_linked = record {
            linked = λ j.
                rw (find-put dec k j n' m.nodes, due-relinked dec d k j m.timeouts)
                  (both_ite Linked (dec k j) (some n') (find dec j m.nodes) (some d)
                    (due dec j m.timeouts) refl (r.is_linked.linked j));
            sorted =
                insert_timeout-Sorted d k (erase_timeout dec k m.timeouts)
                  (erase_timeout-Sorted dec k m.timeouts r.is_linked.sorted);
            unique =
                insert_timeout-Unique dec d k (erase_timeout dec k m.timeouts)
                  (due-erased dec k m.timeouts)
                  (erase_timeout-Unique dec k m.timeouts r.is_linked.unique);
            early = date_le_refl (first_date ts);
          };
          same = λ j.
              rw (find-put dec k j n' m.nodes, due-relinked dec d k j m.timeouts)
                (value_until-ite (dec k j) (some n') (find dec j m.nodes) (some d)
                    (due dec j m.timeouts)
                  ∙ ap (ite (dec k j) (some (n.value, d))) (r.same j));
        })

  -- A key that gets another value.
  pub revalue-Represents :
      (k : K) (n : Node V) (v : V) (m : TimeoutMap K V) (a : Abstract K V) (d : Date)
      → Represents dec m a
      → find dec k m.nodes ≡ some n
      → due dec k m.timeouts ≡ some d
      → Represents dec
          (record m { nodes = put dec k (record n { value = v }) m.nodes })
          (write dec k (some (v, d)) a)
  revalue-Represents k n v m a d r h e =
      let n' : Node V = record n { value = v } in
      let it : n.timeout_it ≡ some d = subst₂ Linked h e (r.is_linked.linked k) in
      record {
        is_linked = record {
          linked = λ j. rw (find-put dec k j n' m.nodes) (elim (dec k j) [
            | yes p ↦
                rw (if_pos _ p)
                  (subst (λ (x : K). Linked (some n') (due dec x m.timeouts)) p (rw e it))
            | no q ↦ rw (if_neg _ q) (r.is_linked.linked j)
          ]);
          sorted = r.is_linked.sorted;
          unique = r.is_linked.unique;
          early = r.is_linked.early;
        };
        same = λ j. rw (find-put dec k j n' m.nodes) (elim (dec k j) [
          | yes p ↦
              rw (if_pos _ p, if_pos _ p)
                (subst (λ (x : K). value_until (some n') (due dec x m.timeouts) ≡ some (v, d)) p
                  (rw e refl))
          | no q ↦ rw (if_neg _ q, if_neg _ q) (r.same j)
        ]);
      }
