-- ===== src/Timeouts/Callbacks.antt =====
-- `expire` of service/timeout_map.h with a callback, which may change the value and some state of its own
-- and answers with another date, or with `Date()`.
use mathlib.Core.Logic.{ite}
use soa.Prelude.{
  ℕ, zero, suc, true, false, Option, none, some, List, [], ◌∷◌, ok, err, ◌>>=◌, if◌then◌else◌,
}
use soa.Timeouts.{
  Date, is_null, date_le, wild_iterator, out_of_fuel, Node, TimeoutMap, find, put, due,
  insert_timeout, erase_timeout, earlier,
}
use soa.Timeouts.Ops.{Result, unlink}

pub record Answer (V S : Type 0) : Type 0 where
  pub state : S
  pub value : V
  pub expiry : Date

-- An iterator into the deadlines is the key of its entry, or nothing at the end.
module _ {K : Type 0} where
  abbrev pub first_key : List (Date × K) → Option K
  first_key [] = none
  first_key ((d, k) ∷ ts) = some k

  unfoldable pub next_key : Discrete K → K → List (Date × K) → Option K
  next_key dec k [] = none
  next_key dec k ((d, j) ∷ ts) = ite (dec j k) (first_key ts) (next_key dec k ts)

module _ {K V : Type 0} (dec : Discrete K) where
  -- What becomes of an entry that the callback has seen.
  unfoldable pub rearm : K → Node V → Date → TimeoutMap K V → Result (TimeoutMap K V)
  unfolding put insert_timeout erase_timeout
  rearm k n d m = elim n.timeout_it [
    | none ↦ err wild_iterator
    | some old ↦ ok (record m {
      nodes = put dec k (record n { timeout_it = some d }) m.nodes;
      timeouts = insert_timeout d k (erase_timeout dec k m.timeouts);
      earliest = earlier d m.earliest;
    })
  ]

module _ {K V S : Type 0} (dec : Discrete K) where
  unfoldable pub renew : K → Node V → Answer V S → TimeoutMap K V → Result (TimeoutMap K V)
  unfolding put unlink rearm
  renew k n r m =
      let seen = record n { value = r.value } in
      let changed = record m { nodes = put dec k seen m.nodes } in
      if is_null r.expiry then unlink dec k seen changed else rearm dec k seen r.expiry changed

  module _ (callback : K → V → S → Answer V S) (now : Date) where
    -- A round takes a unit of fuel.
    unfoldable pub expire_calling : ℕ → Option K → S → TimeoutMap K V → Result (S × TimeoutMap K V)
    unfolding find due next_key renew
    expire_calling zero it s m = err out_of_fuel
    expire_calling (suc fuel) none s m = ok (s, m)
    expire_calling (suc fuel) (some k) s m = elim (due dec k m.timeouts) [
      | none ↦ err wild_iterator
      | some d ↦ elim (date_le d now) [
        | false ↦ ok (s, m)
        | true ↦ elim (find dec k m.nodes) [
          | none ↦ err wild_iterator
          | some n ↦
              let r = callback k n.value s in
              renew k n r m >>= λ m'. expire_calling fuel (next_key dec k m.timeouts) r.state m'
        ]
      ]
    ]

    unfoldable pub expire_with : ℕ → S → TimeoutMap K V → Result (S × TimeoutMap K V)
    unfolding expire_calling
    expire_with fuel s m = expire_calling fuel (first_key m.timeouts) s m
