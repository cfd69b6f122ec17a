-- ===== src/Timeouts/Ops.antt =====
-- The operations of service/timeout_map.h.
use soa.Prelude.{Bool, true, false, none, some, List, [], ◌∷◌, Outcome, ok, err, ◌>>=◌}
use soa.Timeouts.{
  Date, infinite, null_date, date_le, plus_seconds, Fault, no_default_timeout, key_exists,
  no_such_key, wild_iterator, Node, TimeoutMap, insert_timeout, first_date, earlier, find, put,
  remove, erase_timeout,
}

abbrev pub Result : Type 0 → Type 0
Result A = Outcome Fault A

module _ {K V : Type 0} (dec : Discrete K) where
  unfoldable pub count : K → TimeoutMap K V → Bool
  unfolding find
  count k m = elim (find dec k m.nodes) [ none ↦ false | some n ↦ true ]

  -- `get`, with `Value()` where the key is missing.
  unfoldable pub get : V → K → TimeoutMap K V → V
  unfolding find
  get default k m = elim (find dec k m.nodes) [ none ↦ default | some n ↦ n.value ]

  -- The entry of a node that is in the map already, and `earliest` with it.
  unfoldable pub link : K → Node V → Date → TimeoutMap K V → TimeoutMap K V
  unfolding put insert_timeout
  link k n d m = record m {
    nodes = put dec k (record n { timeout_it = some d }) m.nodes;
    timeouts = insert_timeout d k m.timeouts;
    earliest = earlier d m.earliest;
  }

  -- `operator []`. The new node is in the map before the default timeout is looked at.
  unfoldable pub index : V → Date → K → TimeoutMap K V → Result (Unit {0}) × TimeoutMap K V
  unfolding find put link
  index default now k m =
      let fresh : Node V = record { value = default; timeout = null_date; timeout_it = none } in
      let added = record m { nodes = put dec k fresh m.nodes } in
      elim (find dec k m.nodes) [
        | some n ↦ (ok tt, m)
        | none ↦ elim m.default_timeout [
          | none ↦ (err no_default_timeout, added)
          | some t ↦ (ok tt, link k fresh (plus_seconds now t) added)
        ]
      ]

  unfoldable pub insert : K → V → Date → TimeoutMap K V → Result (TimeoutMap K V)
  unfolding find link
  insert k v d m =
      let node : Node V = record { value = v; timeout = d; timeout_it = none } in
      elim (find dec k m.nodes) [ some n ↦ err key_exists | none ↦ ok (link k node d m) ]

  unfoldable pub update : K → V → TimeoutMap K V → Result (TimeoutMap K V)
  unfolding find put
  update k v m = elim (find dec k m.nodes) [
    | none ↦ err no_such_key
    | some n ↦ ok (record m { nodes = put dec k (record n { value = v }) m.nodes })
  ]

  -- `updateTimeout` of an iterator: the old entry goes, and `earliest` is that of the first entry.
  unfoldable pub relink : K → Node V → Date → TimeoutMap K V → Result (TimeoutMap K V)
  unfolding put insert_timeout erase_timeout
  relink k n d m =
      let ts = insert_timeout d k (erase_timeout dec k m.timeouts) in
      elim n.timeout_it [
        | none ↦ err wild_iterator
        | some old ↦ ok (record m {
          nodes = put dec k (record n { timeout_it = some d }) m.nodes;
          timeouts = ts;
          earliest = first_date ts;
        })
      ]

  unfoldable pub update_timeout : K → Date → TimeoutMap K V → Result (TimeoutMap K V)
  unfolding find relink
  update_timeout k d m = elim (find dec k m.nodes) [
    | none ↦ err no_such_key
    | some n ↦ relink k n d m
  ]

  unfoldable pub access : V → K → Date → TimeoutMap K V → Result (TimeoutMap K V)
  unfolding find link relink
  access default k d m =
      let node : Node V = record { value = default; timeout = d; timeout_it = none } in
      elim (find dec k m.nodes) [ none ↦ ok (link k node d m) | some n ↦ relink k n d m ]

  -- `erase` of an iterator.
  unfoldable pub unlink : K → Node V → TimeoutMap K V → Result (TimeoutMap K V)
  unfolding remove erase_timeout
  unlink k n m =
      let ts = erase_timeout dec k m.timeouts in
      elim n.timeout_it [
        | none ↦ err wild_iterator
        | some old ↦
            ok (record m { nodes = remove dec k m.nodes; timeouts = ts; earliest = first_date ts })
      ]

  unfoldable pub erase : K → TimeoutMap K V → Result (TimeoutMap K V × Bool)
  unfolding find unlink
  erase k m = elim (find dec k m.nodes) [
    | none ↦ ok (m, false)
    | some n ↦ unlink k n m >>= λ r. ok (r, true)
  ]

  unfoldable pub clear : TimeoutMap K V → TimeoutMap K V
  clear m = record m { nodes = []; timeouts = []; earliest = infinite }

  -- `expire` with no callback: the loop over the entries that are left of the iteration.
  unfoldable pub expire_loop : Date → List (Date × K) → TimeoutMap K V → Result (TimeoutMap K V)
  unfolding find unlink
  expire_loop now [] m = ok m
  expire_loop now ((d, k) ∷ rest) m = elim (date_le d now) [
    | false ↦ ok m
    | true ↦ elim (find dec k m.nodes) [
      | none ↦ err wild_iterator
      | some n ↦ unlink k n m >>= λ r. expire_loop now rest r
    ]
  ]

  unfoldable pub expire : Date → TimeoutMap K V → Result (TimeoutMap K V)
  unfolding expire_loop
  expire now m = expire_loop now m.timeouts m
