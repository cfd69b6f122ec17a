-- ===== src/Gc/Entry/Speculative.antt =====
-- A speculative section keeps the lock over a number of unlocks.
use soa.Prelude.{
  ℕ, zero, suc, ◌+◌, ◌<◌, ◌%◌, ◌≡◌, inl, inr, refl, Bool-cases, ==_iff, arith, ◌==◌, if◌then◌else◌,
}
use soa.Gc.Entry.{
  out, shared, Result, ok, ◌>>=◌, Entry, new_entry, lock_speculative, unlock_speculative,
  force_unlock,
}

-- lockSpeculative and unlockSpeculative, n times in turn.
unfoldable pub cycles : ℕ → ℕ → Entry → Result Entry
unfolding lock_speculative unlock_speculative
cycles threshold zero e = ok e
cycles threshold (suc n) e = do
  f ← cycles threshold n e
  g ← lock_speculative f
  unlock_speculative threshold g

-- An idle entry with `c` unlocks pending: it holds a shared lock unless `c` is 0.
abbrev pub pending : ℕ → Entry
pending c = record {
  cs = if c == 0 then out else shared;
  read_locked = if c == 0 then 0 else 1;
  write_locked = 0;
  spec_locked = 0;
  spec_unlocked = c;
}

one_cycle :
    (t c : ℕ)
    → c < t
    → (lock_speculative (pending c) >>= λ g. unlock_speculative t g)
      ≡ ok (pending (if c + 1 == t then 0 else c + 1))
unfolding lock_speculative unlock_speculative
one_cycle t c h = ground arith

zero_mod : (t : ℕ) → 0 < t → 0 % t ≡ 0
zero_mod t h = grind arith

next_mod : (n t : ℕ) → 0 < t → suc n % t ≡ (if n % t + 1 == t then 0 else n % t + 1)
next_mod n t h = elim (Bool-cases (n % t + 1 == t)) [
  | inl full ↦ rw full (grind (arith, ==_iff (n % t + 1) t))
  | inr more ↦ rw more (grind arith)
]

-- After n speculative sections that do not nest, of a threshold above 0, the thread has n modulo the
-- threshold unlocks pending, and it holds the shared lock exactly if these are not 0.
pub cycles-pending : (t n : ℕ) → 0 < t → cycles t n new_entry ≡ ok (pending (n % t))
unfolding cycles new_entry
cycles-pending t zero h = ground (arith, zero_mod t h)
cycles-pending t (suc n) h =
    rw (cycles-pending t n h, one_cycle t (n % t) (omega arith), next_mod n t h) refl

-- forceUnlock then leaves nothing held.
pub force_unlock-cycles : (t n : ℕ) → 0 < t → (cycles t n new_entry >>= force_unlock) ≡ ok new_entry
unfolding force_unlock new_entry
force_unlock-cycles t n h = rw (cycles-pending t n h) (ground arith)
