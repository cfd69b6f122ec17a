-- ===== src/Gc/Threads.antt =====
-- The loops of enterCS, exitCS, enterCSExclusive, visibleBarrier and exitCSExclusive
-- (gc/gc_lock.cc) as a machine for each thread. A step is one access to the shared data: a read of
-- it, a compare-and-exchange or a fetch-and-add. A futex wait that returns, or a lost exchange,
-- leads to another round.
use soa.Prelude.{
  ℕ, ◌-◌, ◌%◌, Bool, false, not, ◌&&◌, ◌||◌, u16_mod, add32, gtb_i16, ◌==◌, if◌then◌else◌,
}
use soa.Gc.Data.{
  Data, Result, ok, err, ◌>>=◌, ◌>>◌, check, bad_exclusive, Update, stored, lost, in_slot,
  in_current, in_old, set_in, add_in, update_data,
}

-- Where a thread stands. The second number of `inside` is the epoch that the thread entered: the
-- code keeps only its last bit, the slot. A Boolean is the call's `runDefer`.
pub data Pc : Type 0 where
  idle : Pc
  entering : Data → Bool → Pc
  inside : ℕ → ℕ → Pc
  leaving : Bool → Pc
  exiting : Data → Bool → Pc
  locking : Data → Pc
  barrier : ℕ → Pc
  holding : ℕ → Pc

-- What a thread that is idle or in a critical section does next; the other points have one way on.
pub data Choice : Type 0 where
  enter leave : Bool → Choice
  lock unlock go : Choice

-- The new data that a round of enterCS proposes.
unfoldable pub enter_value : Data → Data
unfolding in_old set_in add_in
enter_value d =
    if in_old d == 0
    then set_in (record d { epoch = add32 d.epoch 1 }) (add32 d.epoch 1) 1
    else add_in d d.epoch 1

-- `__sync_fetch_and_add(data->in + slot, -1)`
unfoldable pub drop_in : Data → ℕ → Data
unfolding add_in
drop_in d slot = add_in d slot (u16_mod - 1)

-- The data, where the thread stands now, and whether it goes on to run deferred work.
abbrev pub Stepped : Type 0
Stepped = Data × Pc × Bool

unfoldable pub after_enter : Data → Data → Bool → Update → Stepped
after_enter shared new run_defer (stored d wake) =
    (d, inside (new.epoch % 2) new.epoch, wake && run_defer)
after_enter shared new run_defer lost = (shared, entering shared run_defer, false)

unfoldable pub after_exit : Data → Bool → Update → Stepped
after_exit shared run_defer (stored d wake) = (d, idle, wake && run_defer)
after_exit shared run_defer lost = (shared, exiting shared run_defer, false)

unfoldable pub after_lock : Data → Update → Stepped
after_lock shared (stored d wake) = (d, barrier d.epoch, wake)
after_lock shared lost = (shared, locking shared, false)

unfoldable pub enter_round : Data → Data → Bool → Result Stepped
unfolding enter_value update_data after_enter
enter_round shared current run_defer =
    if not (current.exclusive == 0) then ok (shared, entering shared run_defer, false) else (do
      u ← update_data shared current (enter_value current)
      ok (after_enter shared (enter_value current) run_defer u))

unfoldable pub exit_first : Data → ℕ → Bool → Stepped
unfolding drop_in in_slot
exit_first shared slot run_defer =
    if gtb_i16 (in_slot shared slot) 1
    then (drop_in shared slot, idle, false)
    else (drop_in shared slot, leaving run_defer, false)

unfoldable pub exit_round : Data → Data → Bool → Result Stepped
unfolding update_data after_exit
exit_round shared current run_defer = do
  u ← update_data shared current current
  ok (after_exit shared run_defer u)

unfoldable pub lock_round : Data → Data → Result Stepped
unfolding update_data after_lock
lock_round shared current =
    if not (current.exclusive == 0) then ok (shared, locking shared, false) else (do
      u ← update_data shared current (record current { exclusive = 1 })
      ok (after_lock shared u))

-- The tests of visibleBarrier's loop on the data that it has read.
unfoldable pub barrier_passes : Data → ℕ → Bool
unfolding in_current in_old
barrier_passes d start =
    (not (d.epoch == start) && not (d.epoch == add32 start 1))
    || (in_current d == 0 && in_old d == 0)
    || d.visible_epoch == start

-- A round of the barrier. The reads of the exclusive flag and of the word in it count as one access.
unfoldable pub barrier_round : Data → ℕ → Result Stepped
unfolding barrier_passes
barrier_round shared start = do
  check (shared.exclusive == 1) bad_exclusive
  if barrier_passes shared start
      then (do check (shared.epoch == start) bad_exclusive; ok (shared, holding start, false))
      else ok (shared, barrier start, false)

unfoldable pub unlock_first : Data → Result Stepped
unlock_first shared =
    if shared.exclusive == 1
    then ok (record shared { exclusive = 0 }, idle, false)
    else err bad_exclusive

unfoldable pub thread_step : Data → Pc → Choice → Result Stepped
unfolding enter_round exit_first exit_round lock_round barrier_round unlock_first
thread_step shared idle (enter run_defer) = ok (shared, entering shared run_defer, false)
thread_step shared idle lock = ok (shared, locking shared, false)
thread_step shared (entering current run_defer) _ = enter_round shared current run_defer
thread_step shared (inside slot e) (leave run_defer) = ok (exit_first shared slot run_defer)
thread_step shared (leaving run_defer) _ = ok (shared, exiting shared run_defer, false)
thread_step shared (exiting current run_defer) _ = exit_round shared current run_defer
thread_step shared (locking current) _ = lock_round shared current
thread_step shared (barrier start) _ = barrier_round shared start
thread_step shared (holding start) unlock = unlock_first shared
thread_step shared pc _ = ok (shared, pc, false)
