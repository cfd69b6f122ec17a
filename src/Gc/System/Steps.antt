-- ===== src/Gc/System/Steps.antt =====
-- Each access of a thread keeps the invariant, and none throws.
use soa.Prelude.{
  ℕ, ◌+◌, ◌%◌, ◌<◌, ◌≤◌, zero, suc, ◌≡◌, Bool, false, ==_refl, some, List, arith, sub32, All,
  All-set, All-get, count, count-set, count-zero, count-le-length, count-pos, length-set, get_elem?,
  set, if◌then◌else◌,
}
use soa.Gc.Data.{Data, Result, ok, err, in_old, in_slot}
use soa.Gc.Data.Visible.{IsSound}
use soa.Gc.Threads.{Pc, inside, Stepped}
use soa.Gc.System.Invariant.{Inv, IsSnapshot, ThreadInv, inside_slot, is_owner}

-- The result of a step of thread `i`: no error, and data and threads that keep the invariant.
abbrev pub Kept : List Pc → ℕ → Result Stepped → Type 0
Kept ts i (ok r) = Inv r.0 (set ts i r.1)
Kept ts i (err e) = ⊥

abbrev pub one_if : Bool → ℕ
one_if b = if b then 1 else 0

module _ (d : Data) (ts : List Pc) (inv : Inv d ts) where
  pub Inv-IsSnapshot : IsSnapshot d
  Inv-IsSnapshot =
      let a = count-le-length (inside_slot 0) ts in
      let b = count-le-length (inside_slot 1) ts in
      record {
        sound = inv.sound;
        small_0 = omega (arith, a, inv.few, inv.count_0);
        small_1 = omega (arith, b, inv.few, inv.count_1);
      }

  module _ (i : ℕ) (pc : Pc) (at : get_elem? ts i ≡ some pc) where
    pub self : ThreadInv d pc
    self = All-get (ThreadInv d) ts i pc inv.each at

    -- The counts follow the thread that moved.
    pub moved :
        (d' : Data) (pc' : Pc)
        → IsSound d'
        → d'.in_0 + one_if (inside_slot 0 pc) ≡ d.in_0 + one_if (inside_slot 0 pc')
        → d'.in_1 + one_if (inside_slot 1 pc) ≡ d.in_1 + one_if (inside_slot 1 pc')
        → d'.exclusive + one_if (is_owner pc) ≡ d.exclusive + one_if (is_owner pc')
        → d'.exclusive ≤ 1
        → All (ThreadInv d') (set ts i pc')
        → Inv d' (set ts i pc')
    moved d' pc' s e0 e1 ex one each = record {
      sound = s;
      few = omega (arith, length-set ts i pc', inv.few);
      count_0 = omega (arith, count-set (inside_slot 0) ts i pc' pc at, inv.count_0);
      count_1 = omega (arith, count-set (inside_slot 1) ts i pc' pc at, inv.count_1);
      owners = omega (arith, count-set is_owner ts i pc' pc at, inv.owners);
      one_owner = one;
      each = each;
    }

    -- A step that reads, or that only moves the thread on.
    pub moved_on :
        (pc' : Pc)
        → one_if (inside_slot 0 pc) ≡ one_if (inside_slot 0 pc')
        → one_if (inside_slot 1 pc) ≡ one_if (inside_slot 1 pc')
        → one_if (is_owner pc) ≡ one_if (is_owner pc')
        → ThreadInv d pc'
        → Inv d (set ts i pc')
    moved_on pc' e0 e1 ex own =
        moved d pc' inv.sound (omega arith) (omega arith) (omega arith) inv.one_owner
          (All-set (ThreadInv d) ts i pc' inv.each own)

  pub no_owner : d.exclusive ≡ 0 → All (λ pc. is_owner pc ≡ false) ts
  no_owner h = count-zero is_owner ts (omega (arith, inv.owners))

  pub count_slot : (k : ℕ) → k < 2 → in_slot d k ≡ count (inside_slot k) ts
  unfolding in_slot
  count_slot zero h = inv.count_0
  count_slot (suc zero) h = inv.count_1
  count_slot (suc (suc k)) h = absurd (omega arith)

  pub old_empty : in_old d ≡ 0 → All (λ pc. inside_slot (sub32 d.epoch 1 % 2) pc ≡ false) ts
  unfolding in_old
  old_empty h =
      count-zero (inside_slot (sub32 d.epoch 1 % 2)) ts
        (omega (arith, count_slot (sub32 d.epoch 1 % 2) (omega arith)))

  -- A thread inside is counted in its slot.
  pub inside-pos :
      (i slot e : ℕ) → get_elem? ts i ≡ some (inside slot e) → (slot < 2) × (0 < in_slot d slot)
  inside-pos i slot e at =
      let me = self i (inside slot e) at in
      let small : slot < 2 = omega (arith, me.1) in
      (
        small,
        omega (
          arith,
          count_slot slot small,
          count-pos (inside_slot slot) ts i (inside slot e) at (==_refl slot),
        ),
      )

pub in_slot-pos : (d : Data) (slot : ℕ) → 0 < in_slot d slot → 0 < d.in_0 + d.in_1
unfolding in_slot
in_slot-pos d slot pos = ground arith
