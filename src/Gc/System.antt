-- ===== src/Gc/System.antt =====
-- The lock with its threads and its deferred work. A step is one access of one thread, a call of
-- runDefers, or one half of a call of doDefer (before its spin lock, and from there on). Steps of
-- different threads interleave freely. The work that runDefers takes under the spin lock counts as
-- run when it is taken, and work that doDefer runs itself, once it is off the spin lock, when that is
-- decided; it runs no earlier. A callback does nothing to the lock.
pub mod Invariant
pub mod Steps
pub mod Enter
pub mod Leave
pub mod Exclusive
pub mod Reachable
pub mod Exclusion
pub mod Guards
pub mod Queues
pub mod Waits
pub mod Safety
use soa.Prelude.{
  ℕ, zero, suc, ◌+◌, ◌-◌, Bool, Option, none, some, List, [], ◌∷◌, ◌++◌, get_elem?, set,
  if◌then◌else◌,
}
use soa.Gc.Data.{Data, Result, ok, err, ◌>>=◌, new_data}
use soa.Gc.Threads.{Pc, idle, Choice, Stepped, thread_step}
use soa.Gc.Deferred.{
  Work, DeferredList, Entries, add_entry, check_defers, run_all, defer_first, defer_queues,
}

pub record System : Type 0 where
  pub shared : Data
  pub threads : List Pc
  pub entries : Entries
  pub calls : List (ℕ × Work)
  pub ran : List Work
  pub owed : ℕ

pub data Action : Type 0 where
  thread : ℕ → Choice → Action
  run_defers : Action
  defer_call : Work → Action
  defer_lock : ℕ → Action

unfoldable pub idles : ℕ → List Pc
idles zero = []
idles (suc n) = idle ∷ idles n

unfoldable pub start : ℕ → ℕ → System
unfolding idles new_data
start starting_epoch n = record {
  shared = new_data starting_epoch;
  threads = idles n;
  entries = [];
  calls = [];
  ran = [];
  owed = 0;
}

unfoldable pub store : System → ℕ → Stepped → System
store s i (d, pc, wake) = record s {
  shared = d;
  threads = set s.threads i pc;
  owed = if wake then s.owed + 1 else s.owed;
}

unfoldable pub step_thread : System → ℕ → Choice → Result System
unfolding thread_step store
step_thread s i choice = elim (get_elem? s.threads i) [
  | none ↦ ok s
  | some pc ↦ thread_step s.shared pc choice >>= λ r. ok (store s i r)
]

unfoldable pub run_lists : List DeferredList → List Work
unfolding run_all
run_lists [] = []
run_lists (l ∷ ls) = run_all l ++ run_lists ls

unfoldable pub do_run_defers : System → System
unfolding check_defers run_lists
do_run_defers s =
    let (lists, rest) = check_defers s.shared.visible_epoch s.entries in
    record s { entries = rest; ran = s.ran ++ run_lists lists; owed = s.owed - 1 }

unfoldable pub do_defer_call : System → Work → System
unfolding defer_first
do_defer_call s w = elim (defer_first s.shared) [
  | none ↦ record s { ran = s.ran ++ w ∷ [] }
  | some newest ↦ record s { calls = (newest, w) ∷ s.calls }
]

unfoldable pub remove_at {ℓ} : {A : Type ℓ} → ℕ → List A → List A
remove_at n [] = []
remove_at zero (x ∷ xs) = xs
remove_at (suc n) (x ∷ xs) = x ∷ remove_at n xs

unfoldable pub do_defer_lock : System → ℕ → System
unfolding defer_queues add_entry remove_at
do_defer_lock s n = elim (get_elem? s.calls n) [
  | none ↦ s
  | some (newest, w) ↦
      if defer_queues s.shared newest
      then record s { calls = remove_at n s.calls; entries = add_entry newest w s.entries }
      else record s { calls = remove_at n s.calls; ran = s.ran ++ w ∷ [] }
]

unfoldable pub step : System → Action → Result System
unfolding step_thread do_run_defers do_defer_call do_defer_lock
step s (thread i choice) = step_thread s i choice
step s run_defers = ok (do_run_defers s)
step s (defer_call w) = ok (do_defer_call s w)
step s (defer_lock n) = ok (do_defer_lock s n)

unfoldable pub run : System → List Action → Result System
unfolding step
run s [] = ok s
run s (a ∷ as') = step s a >>= λ t. run t as'
