-- ===== src/Gc/Examples.antt =====
-- The theorems about the lock at concrete states, and tests of its definitions.
use soa.Prelude.{
  ◌-◌, ◌^◌, ◌≡◌, ◌≢◌, refl, inl, inr, true, false, none, List, [], ◌∷◌, arith, add32, Ordering,
}
use soa.Prelude.{err}
use soa.Gc.Data.{Data, ok, compare_epochs, in_old, in_current}
use soa.Gc.Data.Epochs.{compare_epochs-add32}
use soa.Gc.Threads.{idle, entering, inside, holding, enter, leave, lock, go}
use soa.Gc.Deferred.{call1, defer_first}
use soa.Gc.System.{System, Action, thread, run_defers, defer_call, defer_lock, start, run}
use soa.Gc.System.Invariant.{IsSnapshot}
use soa.Gc.System.Guards.{epoch_zero_runs}
use soa.Gc.System.Reachable.{SystemInv, Returns, history-SystemInv}
use soa.Gc.System.Exclusion.{in_cs, holding_alone}
use soa.Gc.System.Queues.{NotIn}
use soa.Gc.System.Safety.{deferred_work_waits}
use soa.Gc.Entry
use soa.Gc.Entry.{Entry, new_entry}
use soa.Gc.Entry.Nesting.{Agrees, apply, lock_sh, unlock_exclusive_drops_reader, apply-Agrees}

-- Thread 0 has entered epoch 5; thread 1 has done nothing.
abbrev entering_one : List Action
entering_one = thread 0 (enter true) ∷ thread 0 go ∷ []

abbrev one_inside : System
one_inside = record {
  shared = record { epoch = 5; in_0 = 0; in_1 = 1; visible_epoch = 4; exclusive = 0 };
  threads = inside 1 5 ∷ idle ∷ [];
  entries = [];
  calls = [];
  ran = [];
  owed = 0;
}

one_inside-run : run (start 4 2) entering_one ≡ ok one_inside
unfolding run start
one_inside-run = refl

abbrev busy : List Action
busy = defer_call (call1 7) ∷ thread 1 (enter true) ∷ thread 1 go ∷ defer_lock 0 ∷ run_defers ∷ []

-- The work runs once the thread leaves.
leaving_runs :
    Returns
      (λ t. t.ran ≡ call1 7 ∷ [])
      (run one_inside (
        defer_call (call1 7)
        ∷ defer_lock 0
        ∷ thread 0 (leave true)
        ∷ thread 0 go
        ∷ thread 0 go
        ∷ run_defers
        ∷ []))
unfolding run
leaving_runs = refl

deferred_work_waits_example : Returns (λ t. NotIn (call1 7) t.ran) (run one_inside busy)
deferred_work_waits_example =
    deferred_work_waits 4 2 entering_one one_inside 0 1 5 (call1 7) busy (omega arith) (omega arith)
      one_inside-run refl (λ q. omega arith) (λ q. omega arith)
      (record { not_ran = tt; not_called = tt; not_queued = tt }) (tt, (tt, (tt, (tt, (tt, tt)))))

history-SystemInv_example : Returns SystemInv (run (start (2 ^ 32 - 1) 2) entering_one)
history-SystemInv_example =
    history-SystemInv (2 ^ 32 - 1) 2 entering_one (omega arith) (omega arith)

-- Thread 0 locks; thread 1 tries to enter, and has to wait.
abbrev locking_one : List Action
locking_one = thread 0 lock ∷ thread 0 go ∷ thread 1 (enter true) ∷ thread 0 go ∷ thread 1 go ∷ []

abbrev locked_data : Data
locked_data = record { epoch = 4; in_0 = 0; in_1 = 0; visible_epoch = 4; exclusive = 1 }

abbrev one_holding : System
one_holding = record {
  shared = locked_data;
  threads = holding 4 ∷ entering locked_data true ∷ [];
  entries = [];
  calls = [];
  ran = [];
  owed = 0;
}

one_holding-run : run (start 4 2) locking_one ≡ ok one_holding
unfolding run start
one_holding-run = refl

holding_alone_example : in_cs (entering locked_data true) ≡ false
holding_alone_example =
    holding_alone 4 2 locking_one one_holding 0 1 4 (entering locked_data true) (omega arith)
      (omega arith) one_holding-run refl refl (λ q. omega arith)

compare_epochs-add32_example : compare_epochs (add32 (2 ^ 32 - 1) 1) (2 ^ 32 - 1) ≡ Ordering.gt
compare_epochs-add32_example =
    compare_epochs-add32 (2 ^ 32 - 1) 1 (omega arith) (omega arith) (omega arith)

-- A reader is left from epoch -1, and another is in epoch 0.
abbrev at_zero : Data
at_zero = record { epoch = 0; in_0 = 1; in_1 = 1; visible_epoch = 2 ^ 32 - 2; exclusive = 0 }

at_zero-IsSnapshot : IsSnapshot at_zero
unfolding in_current in_old
at_zero-IsSnapshot = record {
  sound = record {
    epoch_range = omega arith;
    visible_range = omega arith;
    lag_bound = omega arith;
    current_in = inr (omega arith);
    old_in = inr refl;
  };
  small_0 = omega arith;
  small_1 = omega arith;
}

abbrev at_zero_system : System
at_zero_system = record {
  shared = at_zero;
  threads = inside 1 (2 ^ 32 - 1) ∷ inside 0 0 ∷ [];
  entries = [];
  calls = [];
  ran = [];
  owed = 0;
}

epoch_zero_runs_example :
    (defer_first at_zero ≢ none)
    × (run at_zero_system (defer_call (call1 3) ∷ defer_lock 0 ∷ [])
        ≡ ok (record at_zero_system { ran = call1 3 ∷ [] }))
unfolding in_old
epoch_zero_runs_example =
    epoch_zero_runs at_zero_system (call1 3) at_zero-IsSnapshot refl (omega arith)

-- That state is reached, from the starting epoch -2: thread 0 enters, and then thread 1.
at_zero-reached :
    run
      (start (2 ^ 32 - 2) 2)
      (thread 0 (enter true) ∷ thread 0 go ∷ thread 1 (enter true) ∷ thread 1 go ∷ [])
    ≡ ok at_zero_system
unfolding run start
at_zero-reached = refl

idle-Agrees : Agrees new_entry
unfolding new_entry
idle-Agrees = record { held = inl (refl, refl, refl) }

-- lockExclusive, then lockShared.
abbrev both_locked : Entry
both_locked = record {
  cs = Entry.Cs.exclusive;
  read_locked = 1;
  write_locked = 1;
  spec_locked = 0;
  spec_unlocked = 0;
}

both_locked-reached :
    Entry.◌>>=◌ (Entry.lock_exclusive new_entry) Entry.lock_shared ≡ ok both_locked
unfolding new_entry Entry.lock_exclusive Entry.lock_shared
both_locked-reached = refl

unlock_exclusive_drops_reader_example :
    (f : Entry) × (Entry.unlock_exclusive both_locked ≡ ok f)
    × (Entry.is_locked_shared f ≡ true)
    × (f.cs ≡ Entry.Cs.out)
    × (Entry.unlock_shared f ≡ err Entry.Fault.not_in_cs)
unlock_exclusive_drops_reader_example =
    unlock_exclusive_drops_reader both_locked (record { held = inr (inr (refl, omega arith)) }) refl
      refl

apply-Agrees_example : Agrees (record new_entry { cs = Entry.Cs.shared; read_locked = 1 })
unfolding new_entry apply
apply-Agrees_example = apply-Agrees 5 lock_sh new_entry _ idle-Agrees (λ q. cc) refl
