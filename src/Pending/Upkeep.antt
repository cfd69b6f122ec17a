-- ===== src/Pending/Upkeep.antt =====
-- service/pending_list.h: what each call does to a list and its store.
use soa.Prelude.{
  suc, ◌≡◌, inl, inr, refl, sym, ap, subst, Bool, true, false, Bool-cases, Option-cases, none, some,
  List, [], ◌∷◌, length, ok, err, if◌then◌else◌,
}
use soa.Timeouts.{Date, is_null, key_exists, no_such_key, TimeoutMap}
use soa.Timeouts.Ops.{Result, insert, update, erase}
use soa.Timeouts.Refinement.{Abstract, Represents, Matches, view, write}
use soa.Timeouts.Expiry.{unlink_cases}
use soa.Timeouts.Moves.{unlink-Matches}
use soa.Timeouts.Calls.{insert_call, update_call, apply, spec, key_cases, apply-Matches}
use soa.Timeouts.Callbacks.{Answer, expire_with}
use soa.Timeouts.Renewal.{renewed}
use soa.Timeouts.Expired.{expired, expired-length, IsForward}
use soa.Timeouts.Visits.{call_all, Comes, expire_with-Comes}
use soa.Pending.{
  Persistence, PendingList, save, forget, insert_pending, update_pending, erase_pending,
  keep_stored, expire_pending,
}
use soa.Pending.Agreement.{IsFaithful, Agrees, save-Agrees, forget-Agrees}
use soa.Pending.Calls.{IsConsistent, consistent, matched-ok, matched-err}

module _ {K V Store : Type 0} (dec : Discrete K) (ps : Persistence K V Store)
    (laws : IsFaithful ps) where
  abbrev pub Keeps : Result (PendingList K V Store) → Type 0
  Keeps (ok p) = IsConsistent dec ps p
  Keeps (err e) = Unit

  -- The map has done what it should, and the store is told.
  pub insert-Keeps :
      (default : V) (k : K) (v : V) (d : Date) (m : TimeoutMap K V) (s : Store)
      → IsConsistent dec ps (record { timeouts = m; store = s; connected = true })
      → Keeps (insert_pending dec ps k v d (record { timeouts = m; store = s; connected = true }))
  unfolding insert_pending apply spec
  insert-Keeps default k v d m s c =
      let r : Represents dec m (view dec m) = record {
        is_linked = c.is_linked;
        same = λ k. refl;
      } in
      let done = apply-Matches dec default m (view dec m) r (insert_call k v d) in
      elim (key_cases dec default m (view dec m) r k) [
        | inl (e, f, g) ↦
            let wanted : spec dec default (insert_call k v d) (view dec m)
                ≡ ok (write dec k (some (v, d)) (view dec m)) =
              rw (g, spec) refl in
            let (m', made, stands) =
              matched-ok dec (insert dec k v d m) (write dec k (some (v, d)) (view dec m))
                (subst (Matches dec (insert dec k v d m)) wanted done) in
            rw (made) (
              consistent dec ps m' (save dec ps k v true s) (write dec k (some (v, d)) (view dec m))
                stands (save-Agrees ps dec laws k v d s (view dec m) c.agrees))
        | inr (n, d', e, f, g) ↦
            let wanted : spec dec default (insert_call k v d) (view dec m) ≡ err key_exists =
              rw (g, spec) refl in
            rw
              (matched-err dec (insert dec k v d m) key_exists
                (subst (Matches dec (insert dec k v d m)) wanted done))
              tt
      ]

  pub update-Keeps :
      (default : V) (k : K) (v : V) (m : TimeoutMap K V) (s : Store)
      → IsConsistent dec ps (record { timeouts = m; store = s; connected = true })
      → Keeps (update_pending dec ps k v (record { timeouts = m; store = s; connected = true }))
  unfolding update_pending apply spec
  update-Keeps default k v m s c =
      let r : Represents dec m (view dec m) = record {
        is_linked = c.is_linked;
        same = λ k. refl;
      } in
      let done = apply-Matches dec default m (view dec m) r (update_call k v) in
      elim (key_cases dec default m (view dec m) r k) [
        | inl (e, f, g) ↦
            let wanted : spec dec default (update_call k v) (view dec m) ≡ err no_such_key =
              rw (g, spec) refl in
            rw
              (matched-err dec (update dec k v m) no_such_key
                (subst (Matches dec (update dec k v m)) wanted done))
              tt
        | inr (n, d, e, f, g) ↦
            let wanted : spec dec default (update_call k v) (view dec m)
                ≡ ok (write dec k (some (v, d)) (view dec m)) =
              rw (g, spec) refl in
            let (m', made, stands) =
              matched-ok dec (update dec k v m) (write dec k (some (v, d)) (view dec m))
                (subst (Matches dec (update dec k v m)) wanted done) in
            rw (made) (
              consistent dec ps m' (save dec ps k v true s) (write dec k (some (v, d)) (view dec m))
                stands (save-Agrees ps dec laws k v d s (view dec m) c.agrees))
      ]

  -- The entry is erased without an exception.
  pub erase-Consistent :
      (default : V) (k : K) (m : TimeoutMap K V) (s : Store)
      → IsConsistent dec ps (record { timeouts = m; store = s; connected = true })
      → (q : PendingList K V Store) × (b : Bool) × (erase_pending dec ps k
            (record { timeouts = m; store = s; connected = true })
          ≡ ok (q, b))
        × IsConsistent dec ps q
  unfolding erase_pending erase
  erase-Consistent default k m s c =
      let r : Represents dec m (view dec m) = record {
        is_linked = c.is_linked;
        same = λ k. refl;
      } in
      elim (key_cases dec default m (view dec m) r k) [
        | inl (e, f, g) ↦
            (record { timeouts = m; store = s; connected = true }, false, rw (e, erase) refl, c)
        | inr (n, d, e, f, g) ↦
            let (m', made, stands, times) =
              unlink_cases dec k n m (write dec k none (view dec m))
                (unlink-Matches dec k n m (view dec m) r e) in
            (
              record { timeouts = m'; store = forget dec ps k true s; connected = true },
              true,
              rw (e, erase, made) refl,
              consistent dec ps m' (forget dec ps k true s) (write dec k none (view dec m)) stands
                  (forget-Agrees ps dec laws k s (view dec m) c.agrees),
            )
      ]

  -- The store follows the calls of the callback.
  call_all-Agrees :
      {U : Type 0} (callback : K → V → U → Answer V U) (ts : List (Date × K)) (u : U) (s : Store)
      (a : Abstract K V)
      → Agrees ps s a
      → let y = call_all dec (keep_stored dec ps callback true) ts (u, s) a in Agrees ps y.0.1 y.1
  unfolding call_all
  call_all-Agrees callback [] u s a h = h
  call_all-Agrees callback ((d, k) ∷ ts) u s a h = elim (Option-cases (a k)) [
    | inl e ↦ rw (e, call_all) (call_all-Agrees callback ts u s a h)
    | inr (x, e) ↦
        let r = callback k x.0 u in
        rw (e, call_all)
          (call_all-Agrees callback ts r.state
            (if is_null r.expiry then forget dec ps k true s else save dec ps k r.value true s)
            (write dec k (renewed dec r) a) (answered r k s a h))
  ]
    where
      answered :
          {U : Type 0} (r : Answer V U) (k : K) (s : Store) (a : Abstract K V)
          → Agrees ps s a
          → Agrees ps
              (if is_null r.expiry then forget dec ps k true s else save dec ps k r.value true s)
              (write dec k (renewed dec r) a)
      answered r k s a h = elim (Bool-cases (is_null r.expiry)) [
        | inl gone ↦ rw gone (forget-Agrees ps dec laws k s a h)
        | inr again ↦ rw again (save-Agrees ps dec laws k r.value r.expiry s a h)
      ]

  Comes-cases :
      {U : Type 0} (callback : K → V → U × Store → Answer V (U × Store)) (now : Date)
      (x : Result ((U × Store) × TimeoutMap K V)) (y : (U × Store) × Abstract K V)
      → Comes dec callback now x y
      → (u : U) × (s : Store) × (m : TimeoutMap K V) × (x ≡ ok ((u, s), m))
        × (s ≡ y.0.1)
        × Represents dec m y.1
  Comes-cases callback now (ok ((u, s), m)) (t, a) (e, r) =
      (u, s, m, refl, ap (λ (z : _ × Store). z.1) e, r)
  Comes-cases callback now (err e) y h = absurd h

  -- The entries are expired without an exception.
  pub expire-Consistent :
      {U : Type 0} (callback : K → V → U → Answer V U) (now : Date) (u : U) (m : TimeoutMap K V)
      (s : Store)
      → ((k : K) (v : V) (u : U) → IsForward dec now (callback k v u))
      → IsConsistent dec ps (record { timeouts = m; store = s; connected = true })
      → (q : PendingList K V Store) × (w : U) × (expire_pending dec ps callback now u
            (record { timeouts = m; store = s; connected = true })
          ≡ ok (q, w))
        × IsConsistent dec ps q
  unfolding expire_pending
  expire-Consistent {U} callback now u m s forward c =
      let r : Represents dec m (view dec m) = record {
        is_linked = c.is_linked;
        same = λ k. refl;
      } in
      let kept = keep_stored dec ps callback true in
      let y = call_all dec kept (expired now m.timeouts) (u, s) (view dec m) in
      let (w, s', m', made, e, stands) =
        Comes-cases kept now (expire_with dec kept now (suc (length m.timeouts)) (u, s) m) y (
          expire_with-Comes dec kept now (λ k v x. forward k v x.0) (suc (length m.timeouts)) (u, s)
            m (view dec m) r (expired-length now m.timeouts)) in
      (
        record { timeouts = m'; store = s'; connected = true },
        w,
        rw (made) refl,
        consistent dec ps m' s' y.1 stands (
            subst (λ t. Agrees ps t y.1) (sym e)
              (call_all-Agrees callback (expired now m.timeouts) u s (view dec m) c.agrees)),
      )
