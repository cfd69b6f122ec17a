-- ===== src/Gc/System/Enter.antt =====
-- enterCS keeps the invariant, and no check of its updates fails.
use soa.Prelude.{
  ℕ, ◌+◌, ◌%◌, ◌<◌, subst, ◌≡◌, ◌≢◌, ◌⊎◌, inl, inr, refl, Bool, true, false, Bool-cases, some, List,
  arith, u32_mod, add32, sub32, ◌==◌, All, All-set, All-imp, All-imp_both, get_elem?, set,
}
use soa.Gc.Data.Epochs.{epoch_ge-near, epoch_ge_refl}
use soa.Gc.Data.{Data, epoch_ge, same_data, in_old}
use soa.Gc.Data.Visible.{settle, settle-IsSound, update_data-IsProposal, eq-of-same_data}
use soa.Gc.Threads.{
  Pc, idle, entering, inside, leaving, exiting, locking, barrier, holding, enter_value, enter_round,
  after_enter,
}
use soa.Gc.System.Steps.{Kept, one_if, Inv-IsSnapshot, self, moved, moved_on, no_owner, old_empty}
use soa.Gc.System.Invariant.{
  Inv, IsSnapshot, ThreadInv, inside_slot, is_owner, enter_value-IsProposal,
}

-- A new epoch: those inside came in with the epoch that ends.
next_epoch :
    (d d' : Data) (pc : Pc)
    → d.epoch < u32_mod
    → d'.epoch ≡ add32 d.epoch 1
    → is_owner pc ≡ false
    → inside_slot (sub32 d.epoch 1 % 2) pc ≡ false
    → ThreadInv d pc
    → ThreadInv d' pc
next_epoch d d' (inside slot e) h e' o n inv = (inv.0, inv.1, ground arith)
next_epoch d d' (barrier _) h e' o n inv = cc
next_epoch d d' (holding _) h e' o n inv = cc
next_epoch d d' idle h e' o n inv = inv
next_epoch d d' (entering _ _) h e' o n inv = inv
next_epoch d d' (leaving _) h e' o n inv = inv
next_epoch d d' (exiting _ _) h e' o n inv = inv
next_epoch d d' (locking _) h e' o n inv = inv

pub same_epoch :
    (d d' : Data) (pc : Pc)
    → d'.epoch ≡ d.epoch
    → is_owner pc ≡ false
    → ThreadInv d pc
    → ThreadInv d' pc
same_epoch d d' (inside slot e) e' o inv = (inv.0, inv.1, ground arith)
same_epoch d d' (barrier _) e' o inv = cc
same_epoch d d' (holding _) e' o inv = cc
same_epoch d d' idle e' o inv = inv
same_epoch d d' (entering _ _) e' o inv = inv
same_epoch d d' (leaving _) e' o inv = inv
same_epoch d d' (exiting _ _) e' o inv = inv
same_epoch d d' (locking _) e' o inv = inv

enter-epoch :
    (d : Data)
    → ((in_old d ≡ 0) × ((enter_value d).epoch ≡ add32 d.epoch 1))
      ⊎ ((in_old d ≢ 0) × ((enter_value d).epoch ≡ d.epoch))
unfolding enter_value
enter-epoch d = ground arith

enter-exclusive : (d : Data) → (enter_value d).exclusive ≡ d.exclusive
unfolding enter_value
enter-exclusive d = ground arith

enter-epoch_ge : (d : Data) → d.epoch < u32_mod → epoch_ge (enter_value d).epoch d.epoch ≡ true
enter-epoch_ge d h = elim (enter-epoch d) [
  | inl (_, e) ↦ rw e (epoch_ge-near d.epoch 1 h (omega arith))
  | inr (_, e) ↦ rw e (epoch_ge_refl d.epoch)
]

-- The slot of the epoch entered gains one.
enter-counts :
    (d : Data)
    → IsSnapshot d
    → let v = enter_value d in
      (v.in_0 ≡ d.in_0 + one_if (v.epoch % 2 == 0)) × (v.in_1 ≡ d.in_1 + one_if (v.epoch % 2 == 1))
unfolding enter_value in_old
enter-counts d s = ground arith

module _ (d : Data) (ts : List Pc) (inv : Inv d ts) (i : ℕ) where
  enter_others : d.exclusive ≡ 0 → All (ThreadInv (settle (enter_value d))) ts
  enter_others free = elim (enter-epoch d) [
    | inl (empty, e) ↦
        All-imp_both (λ pc. ThreadInv d pc × (is_owner pc ≡ false))
          (λ pc. inside_slot (sub32 d.epoch 1 % 2) pc ≡ false) (ThreadInv (settle (enter_value d)))
          ts (λ pc h k. next_epoch d (settle (enter_value d)) pc inv.sound.epoch_range e h.1 k h.0)
          unowned (old_empty d ts inv empty)
    | inr (_, e) ↦
        All-imp _ _ ts (λ pc h. same_epoch d (settle (enter_value d)) pc e h.1 h.0) unowned
  ]
    where
      unowned : All (λ pc. ThreadInv d pc × (is_owner pc ≡ false)) ts
      unowned =
          All-imp_both (ThreadInv d) (λ pc. is_owner pc ≡ false) _ ts (λ pc h k. (h, k)) inv.each
            (no_owner d ts inv free)

  entered :
      (c : Data) (run_defer : Bool)
      → get_elem? ts i ≡ some (entering c run_defer)
      → d.exclusive ≡ 0
      → let v = enter_value d in Inv (settle v) (set ts i (inside (v.epoch % 2) v.epoch))
  entered c run_defer at free =
      let snap = Inv-IsSnapshot d ts inv in
      let proposal = enter_value-IsProposal d snap in
      let counts = enter-counts d snap in
      let ex = enter-exclusive d in
      let v = enter_value d in
      moved d ts inv i (entering c run_defer) at (settle v) (inside (v.epoch % 2) v.epoch)
        (settle-IsSound v proposal) (omega (arith, counts.0)) (omega (arith, counts.1))
        (omega (arith, ex)) (omega (arith, ex))
        (All-set (ThreadInv (settle v)) ts i (inside (v.epoch % 2) v.epoch) (enter_others free)
          (proposal.epoch_range, refl, inl refl))

  -- enterCS, one round: it waits, loses the race, or is in.
  pub enter_round-Kept :
      (c : Data) (run_defer : Bool)
      → get_elem? ts i ≡ some (entering c run_defer)
      → Kept ts i (enter_round d c run_defer)
  unfolding enter_round after_enter
  enter_round-Kept c run_defer at = elim (Bool-cases (c.exclusive == 0)) [
    | inr busy ↦ rw busy again
    | inl free ↦
        rw
          (
            free,
            update_data-IsProposal d c (enter_value c) (enter_value-IsProposal c snap)
                (enter-epoch_ge c snap.sound.epoch_range),
          )
          (elim (Bool-cases (same_data d c)) [
            | inr other ↦ rw other again
            | inl same ↦ rw same (
                subst
                  (λ (x : Data).
                    Inv (settle (enter_value x))
                      (set ts i (inside ((enter_value x).epoch % 2) (enter_value x).epoch)))
                  (eq-of-same_data d c same)
                  (entered c run_defer at (ground (arith, eq-of-same_data d c same))))
          ])
  ]
    where
      snap : IsSnapshot c
      snap = self d ts inv i (entering c run_defer) at

      again : Inv d (set ts i (entering d run_defer))
      again =
          moved_on d ts inv i (entering c run_defer) at (entering d run_defer) refl refl refl
            (Inv-IsSnapshot d ts inv)
