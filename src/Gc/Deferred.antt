-- ===== src/Gc/Deferred.antt =====
-- The queues of deferred work (gc/gc_lock.cc, `DeferredList`, `Deferred`, `checkDefers`, `doDefer`).
-- A piece of work is the number of its call: what the function and its arguments are does not
-- matter here, only how many arguments there are, since each number of them has its own vector.
use soa.Prelude.{
  ℕ, zero, suc, ◌+◌, ◌-◌, ◌^◌, Bool, false, not, ◌&&◌, ◌||◌, Option, none, some, List, [], ◌∷◌,
  ◌++◌, u16_mod, u32_mod, sub32, ltb_i32, gtb_i16, ◌==◌, length, if◌then◌else◌,
}
use soa.Gc.Data.{Data, epoch_gt, in_current, in_old}

pub data Work : Type 0 where
  call1 call2 call3 : ℕ → Work

pub record DeferredList : Type 0 where
  pub deferred1 : List Work
  pub deferred2 : List Work
  pub deferred3 : List Work

unfoldable pub new_list : DeferredList
new_list = record { deferred1 = []; deferred2 = []; deferred3 = [] }

unfoldable pub add_deferred : DeferredList → Work → DeferredList
add_deferred l (call1 n) = record l { deferred1 = l.deferred1 ++ call1 n ∷ [] }
add_deferred l (call2 n) = record l { deferred2 = l.deferred2 ++ call2 n ∷ [] }
add_deferred l (call3 n) = record l { deferred3 = l.deferred3 ++ call3 n ∷ [] }

unfoldable pub size : DeferredList → ℕ
size l = length l.deferred1 + length l.deferred2 + length l.deferred3

-- The work in the order in which `runAll` runs it. What a call throws is swallowed there.
unfoldable pub run_all : DeferredList → List Work
run_all l = l.deferred1 ++ (l.deferred2 ++ l.deferred3)

-- std::map<int32_t, DeferredList *>: sorted by the signed order of the epochs.
abbrev pub Entries : Type 0
Entries = List (ℕ × DeferredList)

-- `entries.insert(make_pair(epoch, 0))`, a new list if there was none, and `addDeferred` on it.
unfoldable pub add_entry : ℕ → Work → Entries → Entries
unfolding new_list add_deferred
add_entry k w [] = (k, add_deferred new_list w) ∷ []
add_entry k w ((j, l) ∷ es) =
    if k == j
    then (j, add_deferred l w) ∷ es
    else if ltb_i32 k j
    then (k, add_deferred new_list w) ∷ (j, l) ∷ es
    else (j, l) ∷ add_entry k w es

-- The inner loop of `checkDefers`: the lists to run, and the entries that stay.
unfoldable pub pop_ready : ℕ → Entries → List DeferredList × Entries
unfolding epoch_gt
pop_ready visible [] = ([], [])
pop_ready visible ((k, l) ∷ es) =
    let (ready, rest) = pop_ready visible es in
    if epoch_gt k visible then ([], (k, l) ∷ es) else (l ∷ ready, rest)

unfoldable pub first_ready : ℕ → Entries → Bool
unfolding epoch_gt
first_ready visible [] = false
first_ready visible ((k, l) ∷ es) = not (epoch_gt k visible)

-- The outer loop, on fuel: a round takes at least the first entry.
unfoldable pub check_loop : ℕ → ℕ → Entries → List DeferredList × Entries
unfolding pop_ready first_ready
check_loop zero visible es = ([], es)
check_loop (suc fuel) visible es =
    let (ready, rest) = pop_ready visible es in
    let (more, left) = check_loop fuel visible rest in
    if first_ready visible es then (ready ++ more, left) else ([], es)

unfoldable pub check_defers : ℕ → Entries → List DeferredList × Entries
unfolding check_loop
check_defers visible es = check_loop (length es) visible es

-- `inCurrent() + inOld() == 0` in int: both 0, or opposite numbers.
abbrev pub sum_zero : ℕ → ℕ → Bool
sum_zero a b = (a == 0 && b == 0) || (a + b == u16_mod && not (a == 2 ^ 15))

-- doDefer up to the lock: nothing if the work runs inline, or else the epoch it waits for.
unfoldable pub defer_first : Data → Option ℕ
unfolding in_current in_old
defer_first d =
    if sum_zero (in_current d) (in_old d)
    then none
    else some (if in_current d == 0 then sub32 d.epoch 1 else d.epoch)

-- `-1`, as the pattern of an int32_t
abbrev pub minus_one : ℕ
minus_one = u32_mod - 1

unfoldable pub oldest_live : Data → ℕ
unfolding in_current in_old
oldest_live d =
    if gtb_i16 (in_old d) 0
    then sub32 d.epoch 1
    else if gtb_i16 (in_current d) 0
    then d.epoch
    else minus_one

-- doDefer under the lock, where the data is read again: whether the work is queued.
unfoldable pub defer_queues : Data → ℕ → Bool
unfolding oldest_live epoch_gt in_current in_old
defer_queues d newest =
    not (oldest_live d == minus_one || epoch_gt (oldest_live d) newest)
    && not (sum_zero (in_current d) (in_old d))
