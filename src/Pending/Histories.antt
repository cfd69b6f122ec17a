-- ===== src/Pending/Histories.antt =====
-- service/pending_list.h: histories of calls on a list that has a store.
use soa.Prelude.{◌≡◌, refl, inl, sym, ap, subst, true, none, List, [], ◌∷◌, All, ok, err, ◌>>=◌}
use soa.Timeouts.{TimeoutMap, find, due, new_map}
use soa.Timeouts.Ops.{Result}
use soa.Timeouts.Calls.{new_map-Represents}
use soa.Pending.{
  or_unchanged, Text, Persistence, PendingList, new_list, insert_pending, update_pending,
  pop_pending, init_from_store,
}
use soa.Pending.Agreement.{lookup, IsFaithful}
use soa.Pending.Calls.{
  PendingCall, insert_entry, update_entry, erase_entry, pop_entry, expire_entries, restart, step,
  run_calls, IsForwardCall, IsConsistent, consistent,
}
use soa.Pending.Restart.{init_from_store-restores}
use soa.Pending.Upkeep.{Keeps, insert-Keeps, update-Keeps, erase-Consistent, expire-Consistent}

module _ {K V Store : Type 0} (dec : Discrete K) (ps : Persistence K V Store)
    (laws : IsFaithful ps) where
  abbrev GoesOn : {U : Type 0} → Result (PendingList K V Store × U) → Type 0
  GoesOn (ok y) = IsConsistent dec ps y.0
  GoesOn (err e) = Unit

  with_state :
      {U : Type 0} (u : U) (x : Result (PendingList K V Store))
      → Keeps dec ps laws x
      → GoesOn (x >>= λ q. ok (q, u))
  with_state u (ok q) h = h
  with_state u (err e) h = tt

  step-GoesOn :
      {U : Type 0} (default : V) (c : PendingCall K V U) (m : TimeoutMap K V) (s : Store) (u : U)
      → IsForwardCall dec c
      → IsConsistent dec ps (record { timeouts = m; store = s; connected = true })
      → GoesOn (step dec ps default c (record { timeouts = m; store = s; connected = true }, u))
  unfolding step pop_pending
  step-GoesOn default (insert_entry k v d) m s u f c =
      with_state u
        (insert_pending dec ps k v d (record { timeouts = m; store = s; connected = true }))
        (insert-Keeps dec ps laws default k v d m s c)
  step-GoesOn default (update_entry k v) m s u f c =
      with_state u
        (update_pending dec ps k v (record { timeouts = m; store = s; connected = true }))
        (update-Keeps dec ps laws default k v m s c)
  step-GoesOn default (erase_entry k) m s u f c =
      let (q, b, made, done) = erase-Consistent dec ps laws default k m s c in rw (made) done
  step-GoesOn default (pop_entry k) m s u f c =
      let (q, b, made, done) = erase-Consistent dec ps laws default k m s c in rw (made) done
  step-GoesOn default (expire_entries callback now) m s u f c =
      let (q, w, made, done) = expire-Consistent dec ps laws callback now u m s f c in
      rw (made) done
  step-GoesOn default (restart accept_entry timeout) m s u f c =
      let p : PendingList K V Store = record { timeouts = m; store = s; connected = true } in
      let restored = init_from_store-restores dec ps timeout laws p p c refl in
      subst (λ a. IsConsistent dec ps (init_from_store dec ps a timeout p))
        (λ i k v d. sym (f k v d) i) restored.2

  step-Consistent :
      {U : Type 0} (default : V) (c : PendingCall K V U) (p : PendingList K V Store) (u : U)
      → IsForwardCall dec c
      → IsConsistent dec ps p
      → GoesOn (step dec ps default c (p, u))
  step-Consistent default c p u f h =
      let same : p ≡ record { timeouts = p.timeouts; store = p.store; connected = true } =
        ap (λ b. record { timeouts = p.timeouts; store = p.store; connected = b }) h.connected in
      subst (λ q. GoesOn (step dec ps default c (q, u))) (sym same)
        (step-GoesOn default c p.timeouts p.store u f (subst (IsConsistent dec ps) same h))

  goes_on :
      {U : Type 0} (p : PendingList K V Store) (u : U) (x : Result (PendingList K V Store × U))
      → IsConsistent dec ps p
      → GoesOn x
      → IsConsistent dec ps (or_unchanged (p, u) x).0
  goes_on p u (ok y) h g = g
  goes_on p u (err e) h g = h

  pub run_calls-Consistent :
      {U : Type 0} (default : V) (cs : List (PendingCall K V U)) (p : PendingList K V Store) (u : U)
      → All (IsForwardCall dec) cs
      → IsConsistent dec ps p
      → IsConsistent dec ps (run_calls dec ps default cs (p, u)).0
  unfolding run_calls
  run_calls-Consistent default [] p u f h = h
  run_calls-Consistent default (c ∷ cs) p u f h =
      let x = step dec ps default c (p, u) in
      let next = or_unchanged (p, u) x in
      run_calls-Consistent default cs next.0 next.1 f.1
        (goes_on p u x h (step-Consistent default c p u f.0 h))

  -- After any history of calls on a new list, connected to a store that has no entries at first, where the
  -- callbacks answer with no date or with one that has not passed, and every acceptEntry of initFromStore
  -- takes each entry as it is, the nodes and the deadlines of the list
  -- belong together, the store has the value of each key of the list under that key, and it has no other entries.
  pub history-IsConsistent :
      {U : Type 0} (default : V) (cs : List (PendingCall K V U)) (s : Store) (u : U)
      → ((t : Text) → lookup t (ps.entries s) ≡ none)
      → All (IsForwardCall dec) cs
      → IsConsistent dec ps (run_calls dec ps default cs (new_list s true, u)).0
  unfolding new_map find due
  history-IsConsistent default cs s u empty f =
      run_calls-Consistent default cs (new_list s true) u f (
        consistent dec ps (new_map none) s (λ k. none) (new_map-Represents dec default none)
          (record { same = λ k. empty (ps.stringify_key k); only = λ t. inl (empty t) }))
