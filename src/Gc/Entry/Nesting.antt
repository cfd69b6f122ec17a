-- ===== src/Gc/Entry/Nesting.antt =====
-- The lock is held exactly while an entry counts a reader or a writer, and the one way to lose that.
use soa.Prelude.{ℕ, ◌<◌, ◌≡◌, ◌⊎◌, refl, true, arith}
use soa.Gc.Entry.{
  out, shared, exclusive, Result, ok, err, not_in_cs, Entry, lock_shared, unlock_shared,
  is_locked_shared, lock_exclusive, unlock_exclusive, lock_speculative, unlock_speculative,
  force_unlock,
}

pub record Agrees (e : Entry) : Type 0 where
  pub held :
      ((e.cs ≡ out) × (e.read_locked ≡ 0) × (e.write_locked ≡ 0))
      ⊎ (((e.cs ≡ shared) × (0 < e.read_locked) × (e.write_locked ≡ 0))
          ⊎ ((e.cs ≡ exclusive) × (0 < e.write_locked)))

pub data Op : Type 0 where
  lock_sh unlock_sh lock_ex unlock_ex lock_sp unlock_sp force : Op

unfoldable pub apply : ℕ → Op → Entry → Result Entry
unfolding lock_shared unlock_shared lock_exclusive unlock_exclusive lock_speculative
    unlock_speculative force_unlock
apply t lock_sh e = lock_shared e
apply t unlock_sh e = unlock_shared e
apply t lock_ex e = lock_exclusive e
apply t unlock_ex e = unlock_exclusive e
apply t lock_sp e = lock_speculative e
apply t unlock_sp e = unlock_speculative t e
apply t force e = force_unlock e

-- Every operation that succeeds keeps the lock held exactly while the counts say so; but for the
-- last unlockExclusive this wants that the thread holds no shared lock as well.
pub apply-Agrees :
    (t : ℕ) (op : Op) (e f : Entry)
    → Agrees e
    → (op ≡ unlock_ex → e.write_locked ≡ 1 → e.read_locked ≡ 0)
    → apply t op e ≡ ok f
    → Agrees f
unfolding apply
apply-Agrees t lock_sh e f a n h = record { held = ground arith }
apply-Agrees t unlock_sh e f a n h = record { held = ground arith }
apply-Agrees t lock_ex e f a n h = record { held = ground arith }
apply-Agrees t unlock_ex e f a n h = record { held = ground (arith, n refl) }
apply-Agrees t lock_sp e f a n h = record { held = ground arith }
apply-Agrees t unlock_sp e f a n h = record { held = ground arith }
apply-Agrees t force e f a n h = record { held = ground arith }

-- The way to lose it: a shared lock taken under the exclusive one does not survive it. The entry
-- still counts a reader and the thread is in no critical section, so its last unlockShared throws.
pub unlock_exclusive_drops_reader :
    (e : Entry)
    → Agrees e
    → e.write_locked ≡ 1
    → e.read_locked ≡ 1
    → (f : Entry) × (unlock_exclusive e ≡ ok f)
      × (is_locked_shared f ≡ true)
      × (f.cs ≡ out)
      × (unlock_shared f ≡ err not_in_cs)
unfolding unlock_exclusive is_locked_shared unlock_shared
unlock_exclusive_drops_reader e a w r =
    (record e { cs = out; write_locked = 0 }, ground arith, ground arith, refl, ground arith)
