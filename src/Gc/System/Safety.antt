-- ===== src/Gc/System/Safety.antt =====
-- Deferred work waits for the threads that are in a critical section when it is deferred.
use soa.Prelude.{
  ℕ, ◌<◌, ◌^◌, ◌≡◌, ◌≢◌, refl, sym, ap, ◌∙◌, subst, inl, inr, Option-cases, some, List, [], ◌∷◌,
  u32_mod, All, All-imp, get_elem?-set_self, get_elem?, set, get_elem?-set_ne,
}
use soa.Gc.Data.{Data, Result, ok, err, ◌>>=◌}
use soa.Gc.Deferred.{Work, run_all, minus_one}
use soa.Gc.System.{System}
use soa.Gc.Threads.{Pc, inside, Choice, enter, leave, lock, unlock, go, thread_step, Stepped}
use soa.Gc.System.{
  Action, thread, run_defers, defer_call, defer_lock, start, store, step_thread, step, run,
}
use soa.Gc.System.Queues.{NotIn}
use soa.Gc.System.Exclusion.{returned}
use native.Mathlib.Decide.{ℕ_discrete}
use soa.Gc.System.Steps.{Kept}
use soa.Gc.System.Reachable.{
  SystemInv, Returns, thread_step-Kept, step-SystemInv, history-SystemInv, defer_call-threads,
  defer_lock-threads,
}
use soa.Gc.System.Waits.{Waits, Stays, Quiet, run_defers-Waits, defer_call-Waits, defer_lock-Waits}

stored-Returns :
    (Q : System → Type 0) (s : System) (j : ℕ) (r : Result Stepped)
    → Kept s.threads j r
    → ((x : Stepped) → r ≡ ok x → Q (store s j x))
    → Returns Q (r >>= λ x. ok (store s j x))
stored-Returns Q s j (ok x) h f = f x refl
stored-Returns Q s j (err e) h f = h

-- A thread inside that does not leave stays where it is.
stays_inside :
    (d : Data) (i slot e : ℕ) (choice : Choice) (x : Stepped)
    → Quiet i (thread i choice)
    → thread_step d (inside slot e) choice ≡ ok x
    → x.1 ≡ inside slot e
unfolding thread_step
stays_inside d i slot e (leave rd) x q h = absurd (q refl)
stays_inside d i slot e (enter rd) x q h = cc
stays_inside d i slot e lock x q h = cc
stays_inside d i slot e unlock x q h = cc
stays_inside d i slot e go x q h = cc

self_stays :
    (d : Data) (ts : List Pc) (i slot e : ℕ) (choice : Choice) (pc : Pc) (x : Stepped)
    → Quiet i (thread i choice)
    → get_elem? ts i ≡ some (inside slot e)
    → get_elem? ts i ≡ some pc
    → thread_step d pc choice ≡ ok x
    → get_elem? (set ts i x.1) i ≡ some (inside slot e)
self_stays d ts i slot e choice pc x q at found done =
    let same : pc ≡ inside slot e = cc in
    let there : thread_step d (inside slot e) choice ≡ ok x =
      subst (λ (p : Pc). thread_step d p choice ≡ ok x) same done in
    get_elem?-set_self ts i x.1 pc found ∙ ap some (stays_inside d i slot e choice x q there)

abbrev At : ℕ → ℕ → ℕ → System → Type 0
At i slot e s = get_elem? s.threads i ≡ some (inside slot e)

abbrev pub Both : ℕ → ℕ → ℕ → Work → System → Type 0
Both i slot e w s = Waits w e s × At i slot e s

module _ (i slot e : ℕ) (w : Work) (s : System) (m : Stays i slot e s) where
  store-Both :
      (j : ℕ) (x : Stepped)
      → Waits w e s
      → get_elem? (set s.threads j x.1) i ≡ some (inside slot e)
      → Both i slot e w (store s j x)
  unfolding store
  store-Both j x h at = (record { not_ran = h.not_ran; called = h.called; queued = h.queued }, at)

  step_thread-Both :
      (j : ℕ) (choice : Choice)
      → Quiet i (thread j choice)
      → Waits w e s
      → Returns (Both i slot e w) (step_thread s j choice)
  unfolding step_thread
  step_thread-Both j choice q h = elim (Option-cases (get_elem? s.threads j)) [
    | inl nobody ↦ rw (nobody, step_thread) (h, m.at)
    | inr (pc, found) ↦
        rw (found, step_thread)
          (stored-Returns (Both i slot e w) s j (thread_step s.shared pc choice)
            (thread_step-Kept s.shared s.threads m.inv j pc choice found)
            (λ x done. store-Both j x h (elim (ℕ_discrete j i) [
              | yes same ↦
                  subst
                    (λ (k : ℕ).
                      Quiet i (thread k choice)
                      → get_elem? s.threads k ≡ some pc
                      → get_elem? (set s.threads k x.1) i ≡ some (inside slot e))
                    (sym same)
                    (λ q' f. self_stays s.shared s.threads i slot e choice pc x q' m.at f done) q
                    found
              | no other ↦ get_elem?-set_ne s.threads x.1 other ∙ m.at
            ])))
  ]

  step-Both :
      (a : Action)
      → Quiet i a
      → e ≢ 0
      → e ≢ minus_one
      → Waits w e s
      → Returns (Both i slot e w) (step s a)
  unfolding step
  step-Both (thread j choice) q h0 h1 h = step_thread-Both j choice q h
  step-Both run_defers q h0 h1 h = (run_defers-Waits i slot e w s m h, m.at)
  step-Both (defer_call x) q h0 h1 h = (
    defer_call-Waits i slot e w s m x h,
    ap (λ ts. get_elem? ts i) (defer_call-threads s x) ∙ m.at,
  )
  step-Both (defer_lock n) q h0 h1 h = (
    defer_lock-Waits i slot e w s m n h0 h1 h,
    ap (λ ts. get_elem? ts i) (defer_lock-threads s n) ∙ m.at,
  )

Returns-imp :
    (P Q : System → Type 0) (r : Result System)
    → ((t : System) → P t → Q t)
    → Returns P r
    → Returns Q r
Returns-imp P Q (ok t) f h = f t h
Returns-imp P Q (err e) f h = h

both-Returns :
    (P Q R : System → Type 0) (r : Result System) (k : System → Result System)
    → Returns P r
    → Returns Q r
    → ((t : System) → P t → Q t → Returns R (k t))
    → Returns R (r >>= k)
both-Returns P Q R (ok t) k h g f = f t h g
both-Returns P Q R (err e) k h g f = h

pub run-Waits :
    (i slot e : ℕ) (w : Work) (s : System) (actions : List Action)
    → e ≢ 0
    → e ≢ minus_one
    → All (Quiet i) actions
    → Stays i slot e s
    → Waits w e s
    → Returns (Waits w e) (run s actions)
unfolding run
run-Waits i slot e w s [] h0 h1 q m h = h
run-Waits i slot e w s (a ∷ rest) h0 h1 q m h =
    both-Returns SystemInv (Both i slot e w) (Waits w e) (step s a) (λ t. run t rest)
      (step-SystemInv s a m.inv) (step-Both i slot e w s m a q.0 h0 h1 h)
      (λ t inv b. run-Waits i slot e w t rest h0 h1 q.1 (record { inv = inv; at = b.1 }) b.0)

-- No trace of `w`: it has not run, and it does not wait.
pub record IsFresh (w : Work) (s : System) : Type 0 where
  pub not_ran : NotIn w s.ran
  pub not_called : All (λ c. c.1 ≢ w) s.calls
  pub not_queued : All (λ en. NotIn w (run_all en.1)) s.entries

IsFresh-Waits : (w : Work) (e : ℕ) (s : System) → IsFresh w s → Waits w e s
IsFresh-Waits w e s f = record {
  not_ran = f.not_ran;
  called = All-imp _ _ s.calls (λ c h q. absurd (h q)) f.not_called;
  queued =
      All-imp _ _ s.entries (λ en h. All-imp _ _ (run_all en.1) (λ x k q. absurd (k q)) h)
        f.not_queued;
}

-- After any history of fewer than 2 ^ 15 threads, take a thread that is in a shared critical
-- section and that entered it with an epoch other than 0 and -1. Work that has left no trace by
-- then, and that any calls of defer hand in from then on, does not run as long as the thread does
-- not leave, whatever the other threads and calls do; and none of these steps throws.
pub deferred_work_waits :
    (start_epoch n : ℕ) (before : List Action) (s : System) (i slot e : ℕ) (w : Work)
    (after : List Action)
    → start_epoch < u32_mod
    → n < 2 ^ 15
    → run (start start_epoch n) before ≡ ok s
    → get_elem? s.threads i ≡ some (inside slot e)
    → e ≢ 0
    → e ≢ minus_one
    → IsFresh w s
    → All (Quiet i) after
    → Returns (λ t. NotIn w t.ran) (run s after)
deferred_work_waits start_epoch n before s i slot e w after h few done at h0 h1 f q =
    Returns-imp (Waits w e) (λ t. NotIn w t.ran) (run s after) (λ t k. k.not_ran)
      (run-Waits i slot e w s after h0 h1 q (record { inv = inv; at = at }) (IsFresh-Waits w e s f))
  where
    inv : SystemInv s
    inv =
        returned SystemInv (run (start start_epoch n) before) s done
          (history-SystemInv start_epoch n before h few)
