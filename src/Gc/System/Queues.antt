-- ===== src/Gc/System/Queues.antt =====
-- The queues of deferred work: one call of `checkDefers` makes one round of its outer loop, and
-- neither it nor an insertion moves work away from the epochs that guard a thread.
use mathlib.Core.List.{append-nil}
use soa.Prelude.{
  ℕ, zero, suc, ◌≡◌, ◌≢◌, refl, sym, subst, inl, inr, true, false, Bool-cases, List, [], ◌∷◌, ◌++◌,
  arith, ltb_i32, All, All-imp, All-append, All-append_left, All-append_right, ◌==◌, ==_iff, length,
}
use soa.Gc.Data.{epoch_gt}
use soa.Gc.Deferred.{
  Work, call1, call2, call3, DeferredList, new_list, add_deferred, run_all, Entries, add_entry,
  pop_ready, check_loop, check_defers, first_ready,
}
use soa.Gc.System.Guards.{Guards}
use soa.Gc.System.{run_lists}

-- `w` may stand in the queue of epoch `k` only if `k` guards epoch `e`.
abbrev pub Held : Work → ℕ → ℕ → List Work → Type 0
Held w e k = All (λ x. x ≡ w → Guards k e)

abbrev pub Queued : Work → ℕ → Entries → Type 0
Queued w e = All (λ en. Held w e en.0 (run_all en.1))

abbrev pub Called : Work → ℕ → List (ℕ × Work) → Type 0
Called w e = All (λ c. c.1 ≡ w → Guards c.0 e)

abbrev pub NotIn : Work → List Work → Type 0
NotIn w = All (λ x. x ≢ w)

module _ (w : Work) (e : ℕ) where
  abbrev Fits : ℕ → Work → Type 0
  Fits k x = x ≡ w → Guards k e

  Held-NotIn : (k : ℕ) (l : List Work) → ¬ Guards k e → Held w e k l → NotIn w l
  Held-NotIn k l g h = All-imp _ _ l (λ x f q. g (f q)) h

  Held-add_deferred :
      (k : ℕ) (l : DeferredList) (x : Work)
      → (x ≡ w → Guards k e)
      → Held w e k (run_all l)
      → Held w e k (run_all (add_deferred l x))
  unfolding run_all add_deferred
  Held-add_deferred k l (call1 n) f h =
      let front = All-append_left (Fits k) l.deferred1 (l.deferred2 ++ l.deferred3) h in
      let back = All-append_right (Fits k) l.deferred1 (l.deferred2 ++ l.deferred3) h in
      All-append (Fits k) (l.deferred1 ++ call1 n ∷ []) (l.deferred2 ++ l.deferred3)
        (All-append (Fits k) l.deferred1 (call1 n ∷ []) front (f, tt)) back
  Held-add_deferred k l (call2 n) f h =
      let front = All-append_left (Fits k) l.deferred1 (l.deferred2 ++ l.deferred3) h in
      let back = All-append_right (Fits k) l.deferred1 (l.deferred2 ++ l.deferred3) h in
      let mid = All-append_left (Fits k) l.deferred2 l.deferred3 back in
      All-append (Fits k) l.deferred1 ((l.deferred2 ++ call2 n ∷ []) ++ l.deferred3) front (
        All-append (Fits k) (l.deferred2 ++ call2 n ∷ []) l.deferred3
          (All-append (Fits k) l.deferred2 (call2 n ∷ []) mid (f, tt))
          (All-append_right (Fits k) l.deferred2 l.deferred3 back))
  Held-add_deferred k l (call3 n) f h =
      let front = All-append_left (Fits k) l.deferred1 (l.deferred2 ++ l.deferred3) h in
      let back = All-append_right (Fits k) l.deferred1 (l.deferred2 ++ l.deferred3) h in
      All-append (Fits k) l.deferred1 (l.deferred2 ++ (l.deferred3 ++ call3 n ∷ [])) front (
        All-append (Fits k) l.deferred2 (l.deferred3 ++ call3 n ∷ [])
          (All-append_left (Fits k) l.deferred2 l.deferred3 back)
          (All-append (Fits k) l.deferred3 (call3 n ∷ [])
            (All-append_right (Fits k) l.deferred2 l.deferred3 back) (f, tt)))

  Held-new_list : (k : ℕ) → Held w e k (run_all new_list)
  unfolding run_all new_list
  Held-new_list k = tt

  pub Queued-add_entry :
      (k : ℕ) (x : Work) (es : Entries)
      → (x ≡ w → Guards k e)
      → Queued w e es
      → Queued w e (add_entry k x es)
  unfolding add_entry
  Queued-add_entry k x [] f h = (Held-add_deferred k new_list x f (Held-new_list k), tt)
  Queued-add_entry k x ((j, l) ∷ es) f h = elim (Bool-cases (k == j)) [
    | inl same ↦ rw same (
      Held-add_deferred j l x (λ q. subst (λ (a : ℕ). Guards a e) ((==_iff k j).0 same) (f q)) h.0,
      h.1,
    )
    | inr other ↦ elim (Bool-cases (ltb_i32 k j)) [
      | inl before ↦ rw (other, before) (Held-add_deferred k new_list x f (Held-new_list k), h)
      | inr after ↦ rw (other, after) (h.0, Queued-add_entry k x es f h.1)
    ]
  ]

  module _ (v : ℕ) (newer : (k : ℕ) → Guards k e → epoch_gt k v ≡ true) where
    pub pop_ready-Queued :
        (es : Entries)
        → Queued w e es
        → NotIn w (run_lists (pop_ready v es).0) × Queued w e (pop_ready v es).1
    unfolding pop_ready run_lists
    pop_ready-Queued [] h = (tt, tt)
    pop_ready-Queued ((k, l) ∷ es) h = elim (Bool-cases (epoch_gt k v)) [
      | inl later ↦ rw later (tt, h)
      | inr now ↦
          let rest = pop_ready-Queued es h.1 in
          let out : NotIn w (run_all l) = Held-NotIn k (run_all l) (λ g. cc (newer k g)) h.0 in
          rw now
            (All-append (λ x. x ≢ w) (run_all l) (run_lists (pop_ready v es).0) out rest.0, rest.1)
    ]

-- The outer loop of `checkDefers` makes one round: it leaves nothing that is ready in front.
pop_ready-done : (v : ℕ) (es : Entries) → first_ready v (pop_ready v es).1 ≡ false
unfolding pop_ready first_ready
pop_ready-done v [] = refl
pop_ready-done v ((k, l) ∷ es) = ground (arith, pop_ready-done v es)

pop_ready-none : (v : ℕ) (es : Entries) → first_ready v es ≡ false → pop_ready v es ≡ ([], es)
unfolding pop_ready first_ready
pop_ready-none v [] h = refl
pop_ready-none v ((k, l) ∷ es) h = ground arith

check_loop-done :
    (fuel v : ℕ) (es : Entries) → first_ready v es ≡ false → check_loop fuel v es ≡ ([], es)
unfolding check_loop
check_loop-done zero v es h = refl
check_loop-done (suc fuel) v es h = rw h

-- checkDefers takes exactly the queues that one pass from the front takes, up to the first whose
-- epoch is still invisible, and keeps the others: its outer loop adds nothing.
pub check_defers-pop_ready : (v : ℕ) (es : Entries) → check_defers v es ≡ pop_ready v es
unfolding check_defers check_loop
check_defers-pop_ready v [] = unfold pop_ready in refl
check_defers-pop_ready v ((k, l) ∷ es) = elim (Bool-cases (first_ready v ((k, l) ∷ es))) [
  | inl ready ↦
      rw
        (
          ready,
          check_loop-done (length es) v (pop_ready v ((k, l) ∷ es)).1
              (pop_ready-done v ((k, l) ∷ es)),
          append-nil,
        )
        refl
  | inr later ↦ rw later (sym (pop_ready-none v ((k, l) ∷ es) later))
]
