-- ===== src/Pending.antt =====
-- service/pending_list.h: a map with deadlines whose entries are kept in a store as well. The store writes
-- and erases without fail. Whether there is one is a flag.
pub mod Agreement
pub mod Calls
pub mod Upkeep
pub mod Histories
pub mod Restart
pub mod Unreadable
pub mod Completion
pub mod Prefixes
pub mod Pairs
mod Examples
mod PairExamples
use soa.Prelude.{
  ℕ, suc, ◌+◌, ◌≡◌, Bool, true, false, Option, none, some, List, [], ◌∷◌, length, ok, err, ◌>>=◌,
  same_bytes, if◌then◌else◌,
}
use soa.Timeouts.{Date, null_date, is_null, Node, TimeoutMap, new_map}
use soa.Timeouts.Ops.{Result, count, get, insert, update, erase, clear}
use soa.Timeouts.Callbacks.{Answer, expire_with}

abbrev pub Text : Type 0
Text = List ℕ

-- `PendingPersistenceT` over `PendingPersistence`: the codec of the user, and the calls of the store.
-- Where a text stands for no key or value the codec throws.
pub record Persistence (K V Store : Type 0) : Type 0 where
  pub stringify_key : K → Text
  pub stringify_value : V → Text
  pub unstringify_key : Text → Option K
  pub unstringify_value : Text → Option V
  pub put : Text → Text → Store → Store
  pub delete : Text → Store → Store
  -- what `scan` goes over
  pub entries : Store → List (Text × Text)

pub record PendingList (K V Store : Type 0) : Type 0 where
  pub timeouts : TimeoutMap K V
  pub store : Store
  pub connected : Bool

abbrev pub new_list : {K V Store : Type 0} → Store → Bool → PendingList K V Store
new_list s connected = record { timeouts = new_map none; store = s; connected = connected }

-- Where an exception is thrown, or caught, before anything is changed.
abbrev pub or_unchanged : {A : Type 0} → A → Result A → A
or_unchanged x (ok y) = y
or_unchanged x (err e) = x

module _ {K V Store : Type 0} (dec : Discrete K) (ps : Persistence K V Store) where
  abbrev pub save : K → V → Bool → Store → Store
  save k v connected s =
      if connected then ps.put (ps.stringify_key k) (ps.stringify_value v) s else s

  abbrev pub forget : K → Bool → Store → Store
  forget k connected s = if connected then ps.delete (ps.stringify_key k) s else s

  unfoldable pub insert_pending :
      K → V → Date → PendingList K V Store → Result (PendingList K V Store)
  insert_pending k v d p = insert dec k v d p.timeouts >>= λ m.
      ok (record p { timeouts = m; store = save k v p.connected p.store })

  unfoldable pub update_pending : K → V → PendingList K V Store → Result (PendingList K V Store)
  update_pending k v p = update dec k v p.timeouts >>= λ m.
      ok (record p { timeouts = m; store = save k v p.connected p.store })

  unfoldable pub erase_pending : K → PendingList K V Store → Result (PendingList K V Store × Bool)
  erase_pending k p = erase dec k p.timeouts >>= λ r. ok (
    record p { timeouts = r.0; store = if r.1 then forget k p.connected p.store else p.store },
    r.1,
  )

  -- `Value()` where the key is missing.
  unfoldable pub pop_pending : V → K → PendingList K V Store → Result (PendingList K V Store × V)
  unfolding erase_pending
  pop_pending default k p = erase_pending k p >>= λ r. ok (r.0, get dec default k p.timeouts)

  module _ {U : Type 0} where
    -- The callback with the store kept up to date.
    abbrev pub keep_stored :
        (K → V → U → Answer V U) → Bool → K → V → U × Store → Answer V (U × Store)
    keep_stored callback connected k v (u, s) =
        let r = callback k v u in
        record {
          state = (
            r.state,
            if is_null r.expiry then forget k connected s else save k r.value connected s,
          );
          value = r.value;
          expiry = r.expiry;
        }

    -- A unit of fuel for each entry, and one more.
    unfoldable pub expire_pending :
        (K → V → U → Answer V U)
        → Date
        → U
        → PendingList K V Store
        → Result (PendingList K V Store × U)
    unfolding expire_with
    expire_pending callback now u p =
        expire_with dec (keep_stored callback p.connected) now (suc (length p.timeouts.timeouts))
          (u, p.store) p.timeouts
        >>= λ r. ok (record p { timeouts = r.1; store = r.0.1 }, r.0.0)

  -- `expire` without a callback.
  abbrev pub drop_all : {U : Type 0} → K → V → U → Answer V U
  drop_all k v u = record { state = u; value = v; expiry = null_date }

  -- An entry of the store on its way into the map: `acceptEntry` may refuse it, or change it.
  abbrev pub decode : Text × Text → Option (K × V)
  decode (t, u) = elim (ps.unstringify_key t) [
    | none ↦ none
    | some k ↦ elim (ps.unstringify_value u) [ none ↦ none | some v ↦ some (k, v) ]
  ]

  abbrev pub delete_all : List Text → Store → Store
  delete_all [] s = s
  delete_all (t ∷ ts) s = delete_all ts (ps.delete t s)

  module _ (accept_entry : K → V → Date → Option (K × V × Date)) (timeout : Date) where
    abbrev pub on_entry : K × V → TimeoutMap K V → TimeoutMap K V
    on_entry (k, v) m = elim (accept_entry k v timeout) [
      | none ↦ m
      | some e ↦ or_unchanged m (insert dec e.0 e.1 e.2 m)
    ]

    -- The entries that are read, and the keys of those that could not be.
    unfoldable pub scan_entries :
        List (Text × Text) → TimeoutMap K V → List Text → TimeoutMap K V × List Text
    scan_entries [] m bad = (m, bad)
    scan_entries (e ∷ es) m bad = elim (decode e) [
      | none ↦ scan_entries es m (e.0 ∷ bad)
      | some kv ↦ scan_entries es (on_entry kv m) bad
    ]

    unfoldable pub init_from_store : PendingList K V Store → PendingList K V Store
    unfolding scan_entries
    init_from_store p =
        let r = scan_entries (ps.entries p.store) (clear dec p.timeouts) [] in
        record p { timeouts = r.0; store = delete_all r.1 p.store; connected = true }
