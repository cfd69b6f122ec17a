-- ===== src/Gc/System/Waits.antt =====
-- Each step on the deferred work keeps the work of those inside waiting.
use soa.Prelude.{
  ℕ, zero, suc, ◌≡◌, ◌≢◌, sym, subst, inl, inr, Bool-cases, Option-cases, some, List, [], ◌∷◌,
  All-get, All-append, get_elem?,
}
use soa.Gc.Deferred.{Work, DeferredList, Entries, check_defers, minus_one, defer_queues}
use soa.Gc.System.Invariant.{IsSnapshot}
use soa.Gc.System.Guards.{
  Guards, Inside, inside-Inside, guarded_not_visible, defer_first-Guards, defer_queues-Guards,
}
use soa.Gc.System.{System, run_lists, do_run_defers, do_defer_call, do_defer_lock, remove_at}
use soa.Gc.Threads.{inside, leave}
use soa.Gc.System.{Action, thread}
use soa.Gc.System.Queues.{
  Queued, Called, NotIn, Queued-add_entry, pop_ready-Queued, check_defers-pop_ready,
}
use soa.Gc.System.Steps.{Inv-IsSnapshot}
use soa.Gc.System.Reachable.{SystemInv}

-- `w` has not run, and wherever it waits, it waits for those who entered epoch `e`.
pub record Waits (w : Work) (e : ℕ) (s : System) : Type 0 where
  pub not_ran : NotIn w s.ran
  pub called : Called w e s.calls
  pub queued : Queued w e s.entries

-- Thread `i` is inside, having entered epoch `e`, in a system that keeps the invariant.
pub record Stays (i slot e : ℕ) (s : System) : Type 0 where
  pub inv : SystemInv s
  pub at : get_elem? s.threads i ≡ some (inside slot e)

-- Thread `i` does not leave.
abbrev pub Quiet : ℕ → Action → Type 0
Quiet i (thread j (leave run_defer)) = j ≢ i
Quiet i _ = Unit

remove_at-Called :
    (w : Work) (e n : ℕ) (cs : List (ℕ × Work)) → Called w e cs → Called w e (remove_at n cs)
unfolding remove_at
remove_at-Called w e n [] h = tt
remove_at-Called w e zero (c ∷ cs) h = h.1
remove_at-Called w e (suc n) (c ∷ cs) h = (h.0, remove_at-Called w e n cs h.1)

module _ (i slot e : ℕ) (w : Work) (s : System) (m : Stays i slot e s) where
  pub here : Inside s.shared e
  here = inside-Inside s.shared s.threads i slot e m.inv m.at

  snapshot : IsSnapshot s.shared
  snapshot = Inv-IsSnapshot s.shared s.threads m.inv

  pub run_defers-Waits : Waits w e s → Waits w e (do_run_defers s)
  unfolding do_run_defers
  run_defers-Waits h =
      let v = s.shared.visible_epoch in
      let newer = λ (k : ℕ) (g : Guards k e). guarded_not_visible s.shared e k m.inv.sound here g in
      let popped = pop_ready-Queued w e v newer s.entries h.queued in
      let out : NotIn w (run_lists (check_defers v s.entries).0) =
        rw (check_defers-pop_ready v s.entries) popped.0 in
      record {
        not_ran =
            All-append (λ x. x ≢ w) s.ran (run_lists (check_defers v s.entries).0) h.not_ran out;
        called = h.called;
        queued =
            subst (λ (r : List DeferredList × Entries). Queued w e r.1)
              (sym (check_defers-pop_ready v s.entries)) popped.1;
      }

  pub defer_call-Waits : (x : Work) → Waits w e s → Waits w e (do_defer_call s x)
  unfolding do_defer_call
  defer_call-Waits x h =
      let (k, first, g) = defer_first-Guards s.shared e snapshot here in
      rw (first, do_defer_call)
        (record { not_ran = h.not_ran; called = ((λ _. g), h.called); queued = h.queued })

  pub defer_lock-Waits :
      (n : ℕ) → e ≢ 0 → e ≢ minus_one → Waits w e s → Waits w e (do_defer_lock s n)
  unfolding do_defer_lock
  defer_lock-Waits n h0 h1 h = elim (Option-cases (get_elem? s.calls n)) [
    | inl nothing ↦ rw (nothing, do_defer_lock) h
    | inr ((k, x), found) ↦
        let guard : x ≡ w → Guards k e =
          All-get (λ (c : ℕ × Work). c.1 ≡ w → Guards c.0 e) s.calls n (k, x) h.called found in
        let called = remove_at-Called w e n s.calls h.called in
        elim (Bool-cases (defer_queues s.shared k)) [
          | inl waits ↦
              rw (found, do_defer_lock)
                (rw waits (record {
                  not_ran = h.not_ran;
                  called = called;
                  queued = Queued-add_entry w e k x s.entries guard h.queued;
                }))
          | inr runs ↦
              rw (found, do_defer_lock)
                (rw runs (record {
                  not_ran =
                      All-append (λ y. y ≢ w) s.ran (x ∷ []) h.not_ran
                        (
                          λ q. cc (defer_queues-Guards s.shared e k snapshot here (guard q) h0 h1),
                          tt,
                        );
                  called = called;
                  queued = h.queued;
                }))
        ]
  ]
