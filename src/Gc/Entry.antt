-- ===== src/Gc/Entry.antt =====
-- The bookkeeping of one thread (gc/gc_lock.h, `ThreadGcInfoEntry`): how often it has locked, and
-- when the lock itself is taken and released. Of the lock an entry sees whether the thread is in a
-- critical section (`inEpoch`), and of which kind. Nesting depths are unbounded numbers.
pub mod Nesting
pub mod Speculative
pub use soa.Prelude.{ok, err, ◌>>=◌}
use soa.Prelude.{Outcome, ℕ, zero, suc, ◌+◌, ◌-◌, Bool, not, ◌&&◌, ◌||◌, ◌==◌, if◌then◌else◌}

pub data Cs : Type 0 where
  out shared exclusive : Cs

pub data Fault : Type 0 where
  in_cs not_in_cs bad_read_nesting bad_write_nesting bad_speculative_nesting bad_force_unlock
        bad_exit :
      Fault

abbrev pub Result {ℓ} : Type ℓ → Type ℓ
Result A = Outcome Fault A

pub record Entry : Type 0 where
  pub cs : Cs
  pub read_locked : ℕ
  pub write_locked : ℕ
  pub spec_locked : ℕ
  pub spec_unlocked : ℕ

unfoldable pub new_entry : Entry
new_entry = record {
  cs = out;
  read_locked = 0;
  write_locked = 0;
  spec_locked = 0;
  spec_unlocked = 0;
}

-- What the calls of the owner do to the entry, and the exceptions that they throw for its state.
unfoldable pub enter_cs : Entry → Result Entry
enter_cs e = elim e.cs [ out ↦ ok (record e { cs = shared }) | _ ↦ err in_cs ]

unfoldable pub exit_cs : Entry → Result Entry
exit_cs e = elim e.cs [ out ↦ err not_in_cs | _ ↦ ok (record e { cs = out }) ]

unfoldable pub enter_cs_exclusive : Entry → Result Entry
enter_cs_exclusive e = elim e.cs [ out ↦ ok (record e { cs = exclusive }) | _ ↦ err in_cs ]

unfoldable pub exit_cs_exclusive : Entry → Result Entry
exit_cs_exclusive e = elim e.cs [ exclusive ↦ ok (record e { cs = out }) | _ ↦ err bad_exit ]

unfoldable pub lock_shared : Entry → Result Entry
unfolding enter_cs
lock_shared e = do
  f ← if e.read_locked == 0 && e.write_locked == 0 then enter_cs e else ok e
  ok (record f { read_locked = f.read_locked + 1 })

unfoldable pub unlock_shared : Entry → Result Entry
unfolding exit_cs
unlock_shared e =
    let f = record e { read_locked = e.read_locked - 1 } in
    if e.read_locked == 0
    then err bad_read_nesting
    else if f.read_locked == 0 && f.write_locked == 0
    then exit_cs f
    else ok f

unfoldable pub is_locked_shared : Entry → Bool
is_locked_shared e = not (e.read_locked + e.write_locked == 0)

unfoldable pub lock_exclusive : Entry → Result Entry
unfolding enter_cs_exclusive
lock_exclusive e = do
  f ← if e.write_locked == 0 then enter_cs_exclusive e else ok e
  ok (record f { write_locked = f.write_locked + 1 })

unfoldable pub unlock_exclusive : Entry → Result Entry
unfolding exit_cs_exclusive
unlock_exclusive e =
    let f = record e { write_locked = e.write_locked - 1 } in
    if e.write_locked == 0
    then err bad_write_nesting
    else if f.write_locked == 0
    then exit_cs_exclusive f
    else ok f

unfoldable pub lock_speculative : Entry → Result Entry
unfolding lock_shared
lock_speculative e = do
  f ← if e.spec_locked == 0 && e.spec_unlocked == 0 then lock_shared e else ok e
  ok (record f { spec_locked = f.spec_locked + 1 })

-- The threshold is the global `SpeculativeThreshold`, 5 unless a program sets it.
unfoldable pub unlock_speculative : ℕ → Entry → Result Entry
unfolding unlock_shared
unlock_speculative threshold e =
    let f = record e { spec_locked = e.spec_locked - 1 } in
    let g = record f { spec_unlocked = f.spec_unlocked + 1 } in
    if e.spec_locked == 0
    then err bad_speculative_nesting
    else if not (f.spec_locked == 0)
    then ok f
    else if g.spec_unlocked == threshold
    then (do h ← unlock_shared g; ok (record h { spec_unlocked = 0 }))
    else ok g

unfoldable pub force_unlock : Entry → Result Entry
unfolding unlock_shared
force_unlock e =
    if not (e.spec_locked == 0)
    then err bad_force_unlock
    else if e.spec_unlocked == 0
    then ok e
    else (do f ← unlock_shared e; ok (record f { spec_unlocked = 0 }))
