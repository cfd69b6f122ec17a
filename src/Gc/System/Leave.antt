-- ===== src/Gc/System/Leave.antt =====
-- exitCS keeps the invariant: the fetch-and-add first, then the rounds that settle the visible epoch.
use soa.Prelude.{
  ℕ, ◌+◌, ◌<◌, ◌^◌, subst, ◌≡◌, inl, inr, refl, Bool, false, Bool-cases, some, List, arith, gtb_i16,
  ◌==◌, All-set, All-imp, get_elem?, set,
}
use soa.Gc.Data.Epochs.{epoch_ge_refl}
use soa.Gc.Data.{Data, ok, same_data, in_slot}
use soa.Gc.Data.Visible.{
  IsSound-IsProposal, settle, settle-IsSound, update_data-IsProposal, eq-of-same_data,
}
use soa.Gc.Threads.{
  Pc, idle, entering, inside, leaving, exiting, locking, barrier, holding, exit_round, after_exit,
  drop_in, exit_first,
}
use soa.Gc.System.Steps.{
  Kept, one_if, Inv-IsSnapshot, self, moved, moved_on, inside-pos, in_slot-pos,
}
use soa.Gc.System.Invariant.{Inv, IsSnapshot, ThreadInv, inside_slot, is_owner, drop_in-IsSound}

drop_in-fields :
    (d : Data) (slot : ℕ)
    → slot < 2
    → 0 < in_slot d slot
    → d.in_0 < 2 ^ 15
    → d.in_1 < 2 ^ 15
    → ((drop_in d slot).in_0 + one_if (slot == 0) ≡ d.in_0)
      × ((drop_in d slot).in_1 + one_if (slot == 1) ≡ d.in_1)
      × ((drop_in d slot).epoch ≡ d.epoch)
      × ((drop_in d slot).exclusive ≡ d.exclusive)
unfolding drop_in in_slot
drop_in-fields d slot small pos h0 h1 = ground arith

drop_others :
    (d d' : Data) (pc : Pc)
    → d'.epoch ≡ d.epoch
    → d'.exclusive ≡ d.exclusive
    → 0 < d.in_0 + d.in_1
    → ThreadInv d pc
    → ThreadInv d' pc
drop_others d d' (inside slot e) e' ex pos inv = (inv.0, inv.1, ground arith)
drop_others d d' (barrier _) e' ex pos inv = ground arith
drop_others d d' (holding _) e' ex pos inv = absurd (omega arith)
drop_others d d' idle e' ex pos inv = inv
drop_others d d' (entering _ _) e' ex pos inv = inv
drop_others d d' (leaving _) e' ex pos inv = inv
drop_others d d' (exiting _ _) e' ex pos inv = inv
drop_others d d' (locking _) e' ex pos inv = inv

settle_others : (d : Data) (pc : Pc) → ThreadInv d pc → ThreadInv (settle d) pc
settle_others d (inside slot e) inv = inv
settle_others d (barrier _) inv = inv
settle_others d (holding _) inv = inv
settle_others d idle inv = inv
settle_others d (entering _ _) inv = inv
settle_others d (leaving _) inv = inv
settle_others d (exiting _ _) inv = inv
settle_others d (locking _) inv = inv

module _ (d : Data) (ts : List Pc) (inv : Inv d ts) (i : ℕ) where
  dropped :
      (slot e : ℕ) (pc : Pc)
      → get_elem? ts i ≡ some (inside slot e)
      → inside_slot 0 pc ≡ false
      → inside_slot 1 pc ≡ false
      → is_owner pc ≡ false
      → ((x : Data) → ThreadInv x pc)
      → Inv (drop_in d slot) (set ts i pc)
  dropped slot e pc at n0 n1 free own =
      moved d ts inv i (inside slot e) at (drop_in d slot) pc
        (drop_in-IsSound d inv.sound slot small pos) (ground (arith, fields.0))
        (ground (arith, fields.1)) (ground (arith, fields.3))
        (omega (arith, fields.3, inv.one_owner))
        (All-set (ThreadInv (drop_in d slot)) ts i pc
          (All-imp (ThreadInv d) (ThreadInv (drop_in d slot)) ts
            (λ x. drop_others d (drop_in d slot) x fields.2 fields.3 busy) inv.each)
          (own (drop_in d slot)))
    where
      snap : IsSnapshot d
      snap = Inv-IsSnapshot d ts inv

      small : slot < 2
      small = (inside-pos d ts inv i slot e at).0

      pos : 0 < in_slot d slot
      pos = (inside-pos d ts inv i slot e at).1

      fields :
          ((drop_in d slot).in_0 + one_if (slot == 0) ≡ d.in_0)
          × ((drop_in d slot).in_1 + one_if (slot == 1) ≡ d.in_1)
          × ((drop_in d slot).epoch ≡ d.epoch)
          × ((drop_in d slot).exclusive ≡ d.exclusive)
      fields = drop_in-fields d slot small pos snap.small_0 snap.small_1

      busy : 0 < d.in_0 + d.in_1
      busy = in_slot-pos d slot pos

  -- exitCS, its fetch-and-add.
  pub exit_first-Kept :
      (slot e : ℕ) (run_defer : Bool)
      → get_elem? ts i ≡ some (inside slot e)
      → Kept ts i (ok (exit_first d slot run_defer))
  unfolding exit_first
  exit_first-Kept slot e run_defer at = elim (Bool-cases (gtb_i16 (in_slot d slot) 1)) [
    | inl others ↦ rw (others, exit_first) (dropped slot e idle at refl refl refl (λ x. tt))
    | inr last ↦
        rw (last, exit_first) (dropped slot e (leaving run_defer) at refl refl refl (λ x. tt))
  ]

  pub leaving-Kept :
      (run_defer : Bool)
      → get_elem? ts i ≡ some (leaving run_defer)
      → Kept ts i (ok (d, exiting d run_defer, false))
  leaving-Kept run_defer at =
      moved_on d ts inv i (leaving run_defer) at (exiting d run_defer) refl refl refl
        (Inv-IsSnapshot d ts inv)

  settled :
      (c : Data) (run_defer : Bool)
      → get_elem? ts i ≡ some (exiting c run_defer)
      → Inv (settle d) (set ts i idle)
  settled c run_defer at =
      moved d ts inv i (exiting c run_defer) at (settle d) idle
        (settle-IsSound d (IsSound-IsProposal d inv.sound)) refl refl refl inv.one_owner
        (All-set (ThreadInv (settle d)) ts i idle
          (All-imp (ThreadInv d) (ThreadInv (settle d)) ts (settle_others d) inv.each) tt)

  -- exitCS, one round of its loop.
  pub exit_round-Kept :
      (c : Data) (run_defer : Bool)
      → get_elem? ts i ≡ some (exiting c run_defer)
      → Kept ts i (exit_round d c run_defer)
  unfolding exit_round after_exit
  exit_round-Kept c run_defer at =
      let snap = self d ts inv i (exiting c run_defer) at in
      rw (update_data-IsProposal d c c (IsSound-IsProposal c snap.sound) (epoch_ge_refl c.epoch))
        (elim (Bool-cases (same_data d c)) [
          | inr other ↦ rw other (
              moved_on d ts inv i (exiting c run_defer) at (exiting d run_defer) refl refl refl
                (Inv-IsSnapshot d ts inv))
          | inl same ↦ rw same (
              subst (λ (x : Data). Inv (settle x) (set ts i idle)) (eq-of-same_data d c same)
                (settled c run_defer at))
        ])
