-- ===== src/Timeouts/Renewal.antt =====
-- service/timeout_map.h: what `expire` does to an entry that its callback has seen.
use mathlib.Core.Logic.{if_pos}
use soa.Prelude.{
  ◌≡◌, refl, subst, ◌∙◌, true, Bool-cases, inl, inr, Option, none, some, List, [], ◌∷◌, ok,
  if◌then◌else◌,
}
use soa.Timeouts.{
  Date, finite, infinite, is_null, date_le, Node, TimeoutMap, find, put, due, insert_timeout,
  first_date, erase_timeout, earlier,
}
use soa.Timeouts.Maps.{Above, Sorted, Above-weaken, Above-erase_timeout, find-put}
use soa.Timeouts.Ops.{relink}
use soa.Timeouts.Refinement.{Abstract, Represents, Matches, write}
use soa.Timeouts.Moves.{
  ite-ite, link-early, linked_at, unlink-Matches, relink-Matches, revalue-Represents,
}
use soa.Timeouts.Expiry.{Represents-cong, unlink_cases}
use soa.Timeouts.Callbacks.{Answer, rearm, renew}

Above-Sorted_first :
    {K : Type 0} (e : Date) (ts : List (Date × K))
    → Sorted ts
    → date_le e (first_date ts) ≡ true
    → Above e ts
Above-Sorted_first e [] s h = tt
Above-Sorted_first e ((d, k) ∷ ts) s h = (h, Above-weaken e d ts h s.0)

le_infinite : (e : Date) → date_le e infinite ≡ true
le_infinite (finite a) = refl
le_infinite infinite = refl

first-Above :
    {K : Type 0} (e : Date) (ts : List (Date × K)) → Above e ts → date_le e (first_date ts) ≡ true
first-Above e [] h = le_infinite e
first-Above e ((d, k) ∷ ts) h = h.0

module _ {K V : Type 0} (dec : Discrete K) where
  -- `earliest` may be any date that is not behind the first deadline.
  set_earliest :
      (m : TimeoutMap K V) (a : Abstract K V) (e : Date)
      → Represents dec m a
      → date_le e (first_date m.timeouts) ≡ true
      → Represents dec (record m { earliest = e }) a
  set_earliest m a e r h = record {
    is_linked = record {
      linked = r.is_linked.linked;
      sorted = r.is_linked.sorted;
      unique = r.is_linked.unique;
      early = h;
    };
    same = r.same;
  }

  abbrev Renewed : K → Option (V × Date) → TimeoutMap K V → Abstract K V → List (Date × K) → Type 0
  Renewed k x m' a ts = Represents dec m' (write dec k x a) × (m'.timeouts ≡ ts)

  rearm-Represents :
      (k : K) (n : Node V) (d : Date) (m : TimeoutMap K V) (a : Abstract K V)
      → Represents dec m a
      → find dec k m.nodes ≡ some n
      → (m' : TimeoutMap K V) × (rearm dec k n d m ≡ ok m')
        × Renewed k (some (n.value, d)) m' a (insert_timeout d k (erase_timeout dec k m.timeouts))
  unfolding rearm relink
  rearm-Represents k n d m a r h =
      let (old, _, it) = linked_at dec k n m a r h in
      let ts = erase_timeout dec k m.timeouts in
      let above =
        Above-erase_timeout dec m.earliest k m.timeouts
          (Above-Sorted_first m.earliest m.timeouts r.is_linked.sorted r.is_linked.early) in
      let m' = record m {
        nodes = put dec k (record n { timeout_it = some d }) m.nodes;
        timeouts = insert_timeout d k ts;
        earliest = first_date (insert_timeout d k ts);
      } in
      let relinked : relink dec k n d m ≡ ok m' = rw (it, relink) refl in
      let stands : Represents dec m' (write dec k (some (n.value, d)) a) =
        subst (λ x. Matches dec x (ok (write dec k (some (n.value, d)) a))) relinked
          (relink-Matches dec k n d m a r h) in
      (
        record m' { earliest = earlier d m.earliest },
        rw (it, rearm) refl,
        (
          set_earliest m' (write dec k (some (n.value, d)) a) (earlier d m.earliest) stands
              (link-early d m.earliest k ts (first-Above m.earliest ts above)),
          refl,
        ),
      )

  abbrev pub renewed : {S : Type 0} → Answer V S → Option (V × Date)
  renewed r = if is_null r.expiry then none else some (r.value, r.expiry)

  abbrev pub renewed_timeouts : {S : Type 0} → K → Answer V S → List (Date × K) → List (Date × K)
  renewed_timeouts k r ts =
      if is_null r.expiry
      then erase_timeout dec k ts
      else insert_timeout r.expiry k (erase_timeout dec k ts)

  write-write :
      (k : K) (x y : Option (V × Date)) (a : Abstract K V) (j : K)
      → write dec k x (write dec k y a) j ≡ write dec k x a j
  write-write k x y a j = ite-ite (dec k j) x y (a j)

  -- An entry with a node is renewed, without an exception, as the callback has answered.
  pub renew-Represents :
      {S : Type 0} (k : K) (n : Node V) (d : Date) (r : Answer V S) (m : TimeoutMap K V)
      (a : Abstract K V)
      → Represents dec m a
      → find dec k m.nodes ≡ some n
      → due dec k m.timeouts ≡ some d
      → (m' : TimeoutMap K V) × (renew dec k n r m ≡ ok m')
        × Renewed k (renewed r) m' a (renewed_timeouts k r m.timeouts)
  unfolding renew
  renew-Represents k n d r m a rep h e =
      let seen = record n { value = r.value } in
      let changed = record m { nodes = put dec k seen m.nodes } in
      let y : Option (V × Date) = some (r.value, d) in
      let z : Option (V × Date) = some (r.value, r.expiry) in
      let valued = revalue-Represents dec k n r.value m a d rep h e in
      let there : find dec k changed.nodes ≡ some seen =
        find-put dec k k seen m.nodes ∙ if_pos (dec k k) refl (some seen) (find dec k m.nodes) in
      elim (Bool-cases (is_null r.expiry)) [
        | inl gone ↦
            let (m', done, stands, times) =
              unlink_cases dec k seen changed (write dec k none (write dec k y a))
                (unlink-Matches dec k seen changed (write dec k y a) valued there) in
            rw gone (
              m',
              done,
              (
                Represents-cong dec m' (write dec k none (write dec k y a)) (write dec k none a)
                    stands (write-write k none y a),
                times,
              ),
            )
        | inr again ↦
            let (m', done, (stands, times)) =
              rearm-Represents k seen r.expiry changed (write dec k y a) valued there in
            rw again (
              m',
              done,
              (
                Represents-cong dec m' (write dec k z (write dec k y a)) (write dec k z a) stands
                    (write-write k z y a),
                times,
              ),
            )
      ]
