-- ===== src/Rcu/Histories.antt =====
-- gc/rcu_protected.h: histories of calls on handles.
use soa.Prelude.{
  ℕ, true, ◌+◌, ◌≡◌, Option, none, some, Option-cases, inl, inr, List, [], ◌∷◌, get_elem?, count,
  arith,
}
use soa.Rcu.{
  Handles, HandleCall, construct, move_with, move_from, copy_with, move_assign, convert_assign,
  unlock_call, destroy, step,
}
use soa.Rcu.Shares.{
  holds, Exceeds, loses, add_handle-Exceeds, unlock-Exceeds, transfer-unlocked, move_new-Exceeds,
  move_assign-Exceeds,
}

unfoldable pub run : List HandleCall → Handles → Handles
unfolding step
run [] w = w
run (c ∷ cs) w = run cs (step c w)

abbrev pub nothing_held : Handles
nothing_held = record { handles = []; shared = λ l. 0 }

module _ (l : ℕ) where
  -- The shares that the calls of a history lose.
  abbrev pub total_loss : List HandleCall → Handles → ℕ
  total_loss [] w = 0
  total_loss (c ∷ cs) w = loses l c w + total_loss cs (step c w)

  abbrev Steps : HandleCall → ℕ → Handles → Type 0
  Steps c n w = Exceeds l (loses l c w + n) (step c w)

  zero_loss : (n : ℕ) (w : Handles) → Exceeds l n w → Exceeds l (0 + n) w
  zero_loss n w e = omega (arith, e)

  copy-Exceeds :
      (j n : ℕ) (p : Option ℕ) (w : Handles) → Exceeds l n w → Exceeds l n (step (copy_with j p) w)
  unfolding step
  copy-Exceeds j n p w e = elim (Option-cases (get_elem? w.handles j)) [
    | inl nothing ↦ rw (nothing, step) e
    | inr (o, at_j) ↦
        rw (at_j, step) (add_handle-Exceeds l (record { ptr = p; lock = o.lock }) n w e)
  ]

  step-Exceeds : (c : HandleCall) (n : ℕ) (w : Handles) → Exceeds l n w → Steps c n w
  unfolding step
  step-Exceeds (construct p k) n w e =
      zero_loss n (step (construct p k) w)
        (add_handle-Exceeds l (record { ptr = p; lock = k }) n w e)
  step-Exceeds (move_with j p) n w e =
      zero_loss n (step (move_with j p) w) (move_new-Exceeds l (some p) j n w e)
  step-Exceeds (move_from j) n w e =
      zero_loss n (step (move_from j) w) (move_new-Exceeds l none j n w e)
  step-Exceeds (copy_with j p) n w e = zero_loss n (step (copy_with j p) w) (copy-Exceeds j n p w e)
  step-Exceeds (move_assign i j) n w e = move_assign-Exceeds l i j n w e
  step-Exceeds (convert_assign i j) n w e =
      zero_loss n (step (convert_assign i j) w) (transfer-unlocked l true i j n w e)
  step-Exceeds (unlock_call i) n w e =
      zero_loss n (step (unlock_call i) w) (unlock-Exceeds l i n w e)
  step-Exceeds (destroy i) n w e = zero_loss n (step (destroy i) w) (unlock-Exceeds l i n w e)

  run-Exceeds :
      (cs : List HandleCall) (n : ℕ) (w : Handles)
      → Exceeds l n w
      → Exceeds l (n + total_loss cs w) (run cs w)
  unfolding run
  run-Exceeds [] n w e = omega (arith, e)
  run-Exceeds (c ∷ cs) n w e =
      let rest = run-Exceeds cs (loses l c w + n) (step c w) (step-Exceeds c n w e) in
      omega (arith, rest)

  -- After any history of calls the thread has a share of a lock for each handle that holds the lock, and one
  -- for each move assignment of the history between two handles that held it, or of one that held it to itself.
  pub run-shares :
      (cs : List HandleCall)
      → (run cs nothing_held).shared l
        ≡ count (holds l) (run cs nothing_held).handles + total_loss cs nothing_held
  run-shares cs = let ended = run-Exceeds cs 0 nothing_held (omega arith) in omega (arith, ended)
