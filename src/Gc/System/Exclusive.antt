-- ===== src/Gc/System/Exclusive.antt =====
-- enterCSExclusive, its barrier and exitCSExclusive keep the invariant, and no assertion fails.
use soa.Prelude.{
  ℕ, subst, ◌≡◌, inl, inr, refl, true, false, ==_refl, Bool-cases, some, List, arith, ◌==◌, All-set,
  All-imp_both, count-set, count-zero, get_elem?, set,
}
use soa.Gc.Data.Epochs.{epoch_ge_refl}
use soa.Gc.Data.{Data, same_data, in_current, in_old}
use soa.Gc.Data.Visible.{IsSound, settle, settle-IsSound, update_data-IsProposal, eq-of-same_data}
use soa.Gc.Threads.{
  Pc, idle, entering, inside, leaving, exiting, locking, barrier, holding, lock_round, after_lock,
  barrier_passes, barrier_round, unlock_first,
}
use soa.Gc.System.Steps.{Kept, Inv-IsSnapshot, self, moved, moved_on, no_owner}
use soa.Gc.System.Invariant.{Inv, IsSnapshot, ThreadInv, is_owner, lock-IsProposal, unlock-IsSound}

-- No thread is an owner while the flag is down, so raising or lowering it concerns no other thread.
flag_others :
    (d d' : Data) (pc : Pc)
    → d'.epoch ≡ d.epoch
    → is_owner pc ≡ false
    → ThreadInv d pc
    → ThreadInv d' pc
flag_others d d' (inside slot e) e' o inv = (inv.0, inv.1, ground arith)
flag_others d d' (barrier _) e' o inv = cc
flag_others d d' (holding _) e' o inv = cc
flag_others d d' idle e' o inv = inv
flag_others d d' (entering _ _) e' o inv = inv
flag_others d d' (leaving _) e' o inv = inv
flag_others d d' (exiting _ _) e' o inv = inv
flag_others d d' (locking _) e' o inv = inv

-- The barrier lets the owner through only when nobody is inside.
barrier_passes-empty :
    (d : Data) → IsSound d → barrier_passes d d.epoch ≡ true → (d.in_0 ≡ 0) × (d.in_1 ≡ 0)
unfolding barrier_passes in_current in_old
barrier_passes-empty d s h = ground arith

module _ (d : Data) (ts : List Pc) (inv : Inv d ts) (i : ℕ) where
  locked :
      (c : Data)
      → get_elem? ts i ≡ some (locking c)
      → d.exclusive ≡ 0
      → let v = record d { exclusive = 1 } in Inv (settle v) (set ts i (barrier v.epoch))
  locked c at free =
      let v = record d { exclusive = 1 } in
      moved d ts inv i (locking c) at (settle v) (barrier v.epoch)
        (settle-IsSound v (lock-IsProposal d inv.sound)) refl refl (omega arith) (omega arith)
        (All-set (ThreadInv (settle v)) ts i (barrier v.epoch)
          (All-imp_both (ThreadInv d) (λ pc. is_owner pc ≡ false) (ThreadInv (settle v)) ts
            (λ pc h o. flag_others d (settle v) pc refl o h) inv.each (no_owner d ts inv free))
          (refl, refl))

  -- enterCSExclusive, one round of its first loop.
  pub lock_round-Kept : (c : Data) → get_elem? ts i ≡ some (locking c) → Kept ts i (lock_round d c)
  unfolding lock_round after_lock
  lock_round-Kept c at = elim (Bool-cases (c.exclusive == 0)) [
    | inr busy ↦ rw busy again
    | inl free ↦
        rw
          (
            free,
            update_data-IsProposal d c (record c { exclusive = 1 }) (lock-IsProposal c snap.sound)
                (epoch_ge_refl c.epoch),
          )
          (elim (Bool-cases (same_data d c)) [
            | inr other ↦ rw other again
            | inl same ↦ rw same (
                subst
                  (λ (x : Data).
                    Inv (settle (record x { exclusive = 1 })) (set ts i (barrier x.epoch)))
                  (eq-of-same_data d c same)
                  (locked c at (ground (arith, eq-of-same_data d c same))))
          ])
  ]
    where
      snap : IsSnapshot c
      snap = self d ts inv i (locking c) at

      again : Inv d (set ts i (locking d))
      again =
          moved_on d ts inv i (locking c) at (locking d) refl refl refl (Inv-IsSnapshot d ts inv)

  -- The barrier of enterCSExclusive, one round of it.
  pub barrier_round-Kept :
      (start : ℕ) → get_elem? ts i ≡ some (barrier start) → Kept ts i (barrier_round d start)
  unfolding barrier_round
  barrier_round-Kept start at =
      let me = self d ts inv i (barrier start) at in
      let up : (d.exclusive == 1) ≡ true = ground arith in
      rw (me.0, up)
        (elim (Bool-cases (barrier_passes d d.epoch)) [
          | inl passes ↦
              rw (passes, ==_refl d.epoch)
                (moved_on d ts inv i (barrier start) at (holding d.epoch) refl refl refl (
                  refl,
                  me.1,
                  (barrier_passes-empty d inv.sound passes).0,
                  (barrier_passes-empty d inv.sound passes).1,
                ))
          | inr waits ↦
              rw waits (
                moved_on d ts inv i (barrier start) at (barrier d.epoch) refl refl refl
                  (refl, me.1))
        ])

  -- exitCSExclusive.
  pub unlock_first-Kept :
      (start : ℕ) → get_elem? ts i ≡ some (holding start) → Kept ts i (unlock_first d)
  unfolding unlock_first
  unlock_first-Kept start at =
      let me = self d ts inv i (holding start) at in
      let up : (d.exclusive == 1) ≡ true = ground arith in
      rw up (
        moved d ts inv i (holding start) at down idle (unlock-IsSound d inv.sound) refl refl
          (omega arith) (omega arith)
          (All-imp_both (ThreadInv d) (λ pc. is_owner pc ≡ false) (ThreadInv down) (set ts i idle)
            (λ pc h o. flag_others d down pc refl o h) (All-set (ThreadInv d) ts i idle inv.each tt)
            (count-zero is_owner (set ts i idle)
              (omega (arith, count-set is_owner ts i idle (holding start) at, inv.owners, me.1)))))
    where
      down : Data
      down = record d { exclusive = 0 }
