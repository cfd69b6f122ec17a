-- ===== src/Gc/System/Invariant.antt =====
-- What holds of the shared data and of every thread at every moment.
use soa.Prelude.{
  ℕ, ◌%◌, ◌<◌, ◌≤◌, ◌^◌, ◌≡◌, ◌⊎◌, Bool, true, false, List, arith, u32_mod, add32, ◌==◌, All, count,
  length,
}
use soa.Gc.Data.{Data, in_current, in_old, in_slot}
use soa.Gc.Data.Visible.{IsSound, IsProposal}
use soa.Gc.Threads.{
  Pc, idle, entering, inside, leaving, exiting, locking, barrier, holding, enter_value, drop_in,
}

abbrev pub inside_slot : ℕ → Pc → Bool
inside_slot k (inside slot e) = slot == k
inside_slot k _ = false

-- The thread has set the exclusive flag and not reset it.
abbrev pub is_owner : Pc → Bool
is_owner (barrier start) = true
is_owner (holding start) = true
is_owner _ = false

-- Data that a thread has read at some time.
pub record IsSnapshot (d : Data) : Type 0 where
  pub sound : IsSound d
  pub small_0 : d.in_0 < 2 ^ 15
  pub small_1 : d.in_1 < 2 ^ 15

abbrev pub ThreadInv : Data → Pc → Type 0
ThreadInv d idle = Unit
ThreadInv d (entering c run_defer) = IsSnapshot c
ThreadInv d (inside slot e) =
    (e < u32_mod) × (slot ≡ e % 2) × ((d.epoch ≡ e) ⊎ (d.epoch ≡ add32 e 1))
ThreadInv d (leaving run_defer) = Unit
ThreadInv d (exiting c run_defer) = IsSnapshot c
ThreadInv d (locking c) = IsSnapshot c
ThreadInv d (barrier start) = (start ≡ d.epoch) × (d.exclusive ≡ 1)
ThreadInv d (holding start) = (start ≡ d.epoch) × (d.exclusive ≡ 1) × (d.in_0 ≡ 0) × (d.in_1 ≡ 0)

pub record Inv (d : Data) (ts : List Pc) : Type 0 where
  pub sound : IsSound d
  pub few : length ts < 2 ^ 15
  pub count_0 : d.in_0 ≡ count (inside_slot 0) ts
  pub count_1 : d.in_1 ≡ count (inside_slot 1) ts
  pub owners : d.exclusive ≡ count is_owner ts
  pub one_owner : d.exclusive ≤ 1
  pub each : All (ThreadInv d) ts

-- Each new value of the shared data is sound or a sound proposal.
module _ (d : Data) (s : IsSound d) where
  pub drop_in-IsSound : (slot : ℕ) → slot < 2 → 0 < in_slot d slot → IsSound (drop_in d slot)
  unfolding drop_in in_current in_old in_slot
  drop_in-IsSound slot small pos = ground arith

  pub lock-IsProposal : IsProposal (record d { exclusive = 1 })
  unfolding in_current in_old
  lock-IsProposal = ground arith

  pub unlock-IsSound : IsSound (record d { exclusive = 0 })
  unfolding in_current in_old
  unlock-IsSound = ground arith

pub enter_value-IsProposal : (d : Data) → IsSnapshot d → IsProposal (enter_value d)
unfolding enter_value in_current in_old
enter_value-IsProposal d s = ground arith
