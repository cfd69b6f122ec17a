-- ===== src/Gc/System/Reachable.antt =====
-- The invariant over whole histories: it holds at the start, every step keeps it, and no step throws.
use soa.Prelude.{
  ℕ, zero, suc, ◌<◌, ◌^◌, ◌≡◌, inl, inr, refl, sym, ap, Bool, false, Bool-cases, Option-cases, some,
  List, [], ◌∷◌, arith, u32_mod, All, count, length, get_elem?,
}
use soa.Gc.Data.{Data, Result, ok, err, ◌>>=◌, new_data, in_current, in_old}
use soa.Gc.Data.Visible.{IsSound}
use soa.Gc.Threads.{
  Pc, idle, entering, inside, leaving, exiting, locking, barrier, holding, Choice, enter, leave,
  lock, unlock, go, Stepped, thread_step,
}
use soa.Gc.Deferred.{Work, defer_first, defer_queues}
use soa.Gc.System.{
  System, Action, thread, run_defers, defer_call, defer_lock, idles, start, store, step_thread,
  do_run_defers, do_defer_call, do_defer_lock, step, run,
}
use soa.Gc.System.Invariant.{Inv, ThreadInv, inside_slot, is_owner}
use soa.Gc.System.Steps.{Kept, Inv-IsSnapshot, self, moved_on}
use soa.Gc.System.Enter.{enter_round-Kept}
use soa.Gc.System.Leave.{exit_first-Kept, leaving-Kept, exit_round-Kept}
use soa.Gc.System.Exclusive.{lock_round-Kept, barrier_round-Kept, unlock_first-Kept}

abbrev pub SystemInv : System → Type 0
SystemInv s = Inv s.shared s.threads

module _ (d : Data) (ts : List Pc) (inv : Inv d ts) (i : ℕ) where
  stays : (pc : Pc) → get_elem? ts i ≡ some pc → Kept ts i (ok (d, pc, false))
  stays pc at = moved_on d ts inv i pc at pc refl refl refl (self d ts inv i pc at)

  pub thread_step-Kept :
      (pc : Pc) (choice : Choice) → get_elem? ts i ≡ some pc → Kept ts i (thread_step d pc choice)
  unfolding thread_step
  thread_step-Kept idle (enter rd) at =
      moved_on d ts inv i idle at (entering d rd) refl refl refl (Inv-IsSnapshot d ts inv)
  thread_step-Kept idle lock at =
      moved_on d ts inv i idle at (locking d) refl refl refl (Inv-IsSnapshot d ts inv)
  thread_step-Kept idle (leave rd) at = stays idle at
  thread_step-Kept idle unlock at = stays idle at
  thread_step-Kept idle go at = stays idle at
  thread_step-Kept (entering c rd) choice at = enter_round-Kept d ts inv i c rd at
  thread_step-Kept (inside slot e) (leave rd) at = exit_first-Kept d ts inv i slot e rd at
  thread_step-Kept (inside slot e) choice at = stays (inside slot e) at
  thread_step-Kept (leaving rd) choice at = leaving-Kept d ts inv i rd at
  thread_step-Kept (exiting c rd) choice at = exit_round-Kept d ts inv i c rd at
  thread_step-Kept (locking c) choice at = lock_round-Kept d ts inv i c at
  thread_step-Kept (barrier start) choice at = barrier_round-Kept d ts inv i start at
  thread_step-Kept (holding start) unlock at = unlock_first-Kept d ts inv i start at
  thread_step-Kept (holding start) choice at = stays (holding start) at

-- The result of a step or of a history: no error, and a system in which `P` holds.
abbrev pub Returns : (System → Type 0) → Result System → Type 0
Returns P (ok s) = P s
Returns P (err e) = ⊥

stored-SystemInv :
    (s : System) (i : ℕ) (r : Result Stepped)
    → Kept s.threads i r
    → Returns SystemInv (r >>= λ x. ok (store s i x))
unfolding store
stored-SystemInv s i (ok r) inv = inv
stored-SystemInv s i (err e) inv = inv

step_thread-SystemInv :
    (s : System) (i : ℕ) (choice : Choice)
    → SystemInv s
    → Returns SystemInv (step_thread s i choice)
unfolding step_thread
step_thread-SystemInv s i choice inv = elim (Option-cases (get_elem? s.threads i)) [
  | inl e ↦ rw (e, step_thread) inv
  | inr (pc, e) ↦
      rw (e, step_thread)
        (stored-SystemInv s i (thread_step s.shared pc choice)
          (thread_step-Kept s.shared s.threads inv i pc choice e))
]

defer_call-SystemInv : (s : System) (w : Work) → SystemInv s → SystemInv (do_defer_call s w)
unfolding do_defer_call
defer_call-SystemInv s w inv = elim (Option-cases (defer_first s.shared)) [
  | inl e ↦ rw (e, do_defer_call) inv
  | inr (k, e) ↦ rw (e, do_defer_call) inv
]

defer_lock-SystemInv : (s : System) (n : ℕ) → SystemInv s → SystemInv (do_defer_lock s n)
unfolding do_defer_lock
defer_lock-SystemInv s n inv = elim (Option-cases (get_elem? s.calls n)) [
  | inl e ↦ rw (e, do_defer_lock) inv
  | inr ((k, w), e) ↦ elim (Bool-cases (defer_queues s.shared k)) [
    | inl q ↦ rw (e, do_defer_lock) (rw q inv)
    | inr q ↦ rw (e, do_defer_lock) (rw q inv)
  ]
]

-- Handing in work touches no thread.
pub defer_call-threads : (s : System) (w : Work) → (do_defer_call s w).threads ≡ s.threads
unfolding do_defer_call
defer_call-threads s w = elim (Option-cases (defer_first s.shared)) [
  | inl e ↦ rw (e, do_defer_call) refl
  | inr (k, e) ↦ rw (e, do_defer_call) refl
]

pub defer_lock-threads : (s : System) (n : ℕ) → (do_defer_lock s n).threads ≡ s.threads
unfolding do_defer_lock
defer_lock-threads s n = elim (Option-cases (get_elem? s.calls n)) [
  | inl e ↦ rw (e, do_defer_lock) refl
  | inr ((k, w), e) ↦ elim (Bool-cases (defer_queues s.shared k)) [
    | inl q ↦ rw (e, do_defer_lock) (rw q refl)
    | inr q ↦ rw (e, do_defer_lock) (rw q refl)
  ]
]

pub step-SystemInv : (s : System) (a : Action) → SystemInv s → Returns SystemInv (step s a)
unfolding step do_run_defers
step-SystemInv s (thread i choice) inv = step_thread-SystemInv s i choice inv
step-SystemInv s run_defers inv = inv
step-SystemInv s (defer_call w) inv = defer_call-SystemInv s w inv
step-SystemInv s (defer_lock n) inv = defer_lock-SystemInv s n inv

pub rest-Returns :
    (P : System → Type 0) (Q : System → Type 0) (r : Result System) (k : System → Result System)
    → Returns P r
    → ((t : System) → P t → Returns Q (k t))
    → Returns Q (r >>= k)
rest-Returns P Q (ok t) k h f = f t h
rest-Returns P Q (err e) k h f = h

pub run-SystemInv :
    (s : System) (actions : List Action) → SystemInv s → Returns SystemInv (run s actions)
unfolding run
run-SystemInv s [] inv = inv
run-SystemInv s (a ∷ rest) inv =
    rest-Returns SystemInv SystemInv (step s a) (λ t. run t rest) (step-SystemInv s a inv)
      (λ t h. run-SystemInv t rest h)

count-idles : (p : Pc → Bool) (n : ℕ) → p idle ≡ false → count p (idles n) ≡ 0
unfolding idles
count-idles p zero h = refl
count-idles p (suc n) h = ground (arith, count-idles p n h)

length-idles : (n : ℕ) → length (idles n) ≡ n
unfolding idles
length-idles zero = refl
length-idles (suc n) = ap suc (length-idles n)

each-idles : (d : Data) (n : ℕ) → All (ThreadInv d) (idles n)
unfolding idles
each-idles d zero = tt
each-idles d (suc n) = (tt, each-idles d n)

new_data-IsSound : (e : ℕ) → e < u32_mod → IsSound (new_data e)
unfolding new_data in_current in_old
new_data-IsSound e h = ground arith

start-SystemInv : (e n : ℕ) → e < u32_mod → n < 2 ^ 15 → SystemInv (start e n)
unfolding start
start-SystemInv e n h few = record {
  sound = new_data-IsSound e h;
  few = omega (arith, length-idles n);
  count_0 = unfold new_data in sym (count-idles (inside_slot 0) n refl);
  count_1 = unfold new_data in sym (count-idles (inside_slot 1) n refl);
  owners = unfold new_data in sym (count-idles is_owner n refl);
  one_owner = unfold new_data in omega arith;
  each = each-idles (new_data e) n;
}

-- Fewer than 2 ^ 15 threads that start idle, at any epoch, never make the lock throw: after every
-- interleaving of their accesses and of deferred calls there is a system, and in it the counts are
-- those of the threads inside, the visible epoch lags by at most two, and at most one thread owns
-- the exclusive flag.
pub history-SystemInv :
    (e n : ℕ) (actions : List Action)
    → e < u32_mod
    → n < 2 ^ 15
    → Returns SystemInv (run (start e n) actions)
history-SystemInv e n actions h few = run-SystemInv (start e n) actions (start-SystemInv e n h few)
