-- ===== src/Pending/Calls.antt =====
-- service/pending_list.h: the calls on a list, and when its store agrees with it.
use soa.Prelude.{◌≡◌, refl, sym, ap, true, Option, some, List, [], ◌∷◌, ok, err, ◌>>=◌}
use soa.Timeouts.{Date, Fault, TimeoutMap}
use soa.Timeouts.Ops.{Result}
use soa.Timeouts.Refinement.{Abstract, Represents, IsLinked, Matches, view}
use soa.Timeouts.Callbacks.{Answer}
use soa.Timeouts.Expired.{IsForward}
use soa.Pending.{
  or_unchanged, Persistence, PendingList, insert_pending, update_pending, erase_pending,
  pop_pending, expire_pending, init_from_store,
}
use soa.Pending.Agreement.{Agrees, Agrees-cong}

pub data PendingCall (K V U : Type 0) : Type 0 where
  insert_entry : K → V → Date → PendingCall K V U
  update_entry : K → V → PendingCall K V U
  erase_entry pop_entry : K → PendingCall K V U
  expire_entries : (K → V → U → Answer V U) → Date → PendingCall K V U
  -- initFromStore with an acceptEntry and a deadline
  restart : (K → V → Date → Option (K × V × Date)) → Date → PendingCall K V U

module _ {K V Store U : Type 0} (dec : Discrete K) (ps : Persistence K V Store) where
  unfoldable pub step :
      V → PendingCall K V U → PendingList K V Store × U → Result (PendingList K V Store × U)
  unfolding insert_pending update_pending erase_pending pop_pending expire_pending init_from_store
  step default (insert_entry k v d) (p, u) = insert_pending dec ps k v d p >>= λ q. ok (q, u)
  step default (update_entry k v) (p, u) = update_pending dec ps k v p >>= λ q. ok (q, u)
  step default (erase_entry k) (p, u) = erase_pending dec ps k p >>= λ q. ok (q.0, u)
  step default (pop_entry k) (p, u) = pop_pending dec ps default k p >>= λ q. ok (q.0, u)
  step default (expire_entries callback now) (p, u) = expire_pending dec ps callback now u p
  step default (restart accept_entry timeout) (p, u) =
      ok (init_from_store dec ps accept_entry timeout p, u)

  -- A call that throws leaves the list as it was.
  unfoldable pub run_calls :
      V → List (PendingCall K V U) → PendingList K V Store × U → PendingList K V Store × U
  unfolding step
  run_calls default [] x = x
  run_calls default (c ∷ cs) x = run_calls default cs (or_unchanged x (step default c x))

module _ {K V U : Type 0} (dec : Discrete K) where
  -- The callback answers with no date or one that has not passed; acceptEntry takes every entry as it is.
  abbrev pub IsForwardCall : PendingCall K V U → Type 0
  IsForwardCall (expire_entries callback now) =
      (k : K) (v : V) (u : U) → IsForward dec now (callback k v u)
  IsForwardCall (restart accept_entry timeout) =
      (k : K) (v : V) (d : Date) → accept_entry k v d ≡ some (k, v, d)
  IsForwardCall (insert_entry k v d) = Unit
  IsForwardCall (update_entry k v) = Unit
  IsForwardCall (erase_entry k) = Unit
  IsForwardCall (pop_entry k) = Unit

module _ {K V Store : Type 0} (dec : Discrete K) (ps : Persistence K V Store) where
  -- The deadlines and the nodes belong together, and the store holds the keys and values of the map.
  pub record IsConsistent (p : PendingList K V Store) : Type 0 where
    pub is_linked : IsLinked dec p.timeouts
    pub agrees : Agrees ps p.store (view dec p.timeouts)
    pub connected : p.connected ≡ true

  pub consistent :
      (m : TimeoutMap K V) (s : Store) (a : Abstract K V)
      → Represents dec m a
      → Agrees ps s a
      → IsConsistent (record { timeouts = m; store = s; connected = true })
  consistent m s a r h = record {
    is_linked = r.is_linked;
    agrees = Agrees-cong ps s a (view dec m) h (λ k. sym (r.same k));
    connected = refl;
  }

module _ {K V : Type 0} (dec : Discrete K) where
  pub matched-ok :
      (x : Result (TimeoutMap K V)) (b : Abstract K V)
      → Matches dec x (ok b)
      → (m : TimeoutMap K V) × (x ≡ ok m) × Represents dec m b
  matched-ok (ok m) b h = (m, refl, h)
  matched-ok (err e) b h = absurd h

  pub matched-err : (x : Result (TimeoutMap K V)) (e : Fault) → Matches dec x (err e) → x ≡ err e
  matched-err (ok m) e h = absurd h
  matched-err (err f) e h = ap err h
