-- ===== src/Gc/System/Exclusion.antt =====
-- Who can be in a critical section together.
use soa.Prelude.{
  ℕ, zero, suc, ◌<◌, ◌≤◌, ◌^◌, ◌≡◌, ◌≢◌, Bool-cases, ◌⊎◌, refl, ap, subst, inl, inr, Bool, true,
  false, some, List, [], ◌∷◌, arith, u32_mod, count, count-pos, get_elem?,
}
use soa.Gc.Data.{Data, Result, ok, err}
use soa.Gc.Threads.{Pc, idle, entering, inside, leaving, exiting, locking, barrier, holding}
use soa.Gc.System.{System, Action, start, run}
use soa.Gc.System.Invariant.{Inv, is_owner}
use soa.Gc.System.Steps.{self, inside-pos, in_slot-pos}
use soa.Gc.System.Reachable.{SystemInv, Returns, history-SystemInv}

-- In a shared or in the exclusive critical section.
abbrev pub in_cs : Pc → Bool
in_cs (inside slot e) = true
in_cs (holding start) = true
in_cs _ = false

count-two :
    (p : Pc → Bool) (ts : List Pc) (i j : ℕ) (x y : Pc)
    → get_elem? ts i ≡ some x
    → get_elem? ts j ≡ some y
    → p x ≡ true
    → p y ≡ true
    → (i ≡ j) ⊎ (2 ≤ count p ts)
count-two p [] i j x y e f h k = ground arith
count-two p (t ∷ ts) zero zero x y e f h k = inl refl
count-two p (t ∷ ts) zero (suc j) x y e f h k = inr (ground (arith, count-pos p ts j y f k))
count-two p (t ∷ ts) (suc i) zero x y e f h k = inr (ground (arith, count-pos p ts i x e h))
count-two p (t ∷ ts) (suc i) (suc j) x y e f h k = elim (count-two p ts i j x y e f h k) [
  | inl same ↦ inl (ap suc same)
  | inr two ↦ inr (omega (arith, two))
]

module _ (d : Data) (ts : List Pc) (inv : Inv d ts) (i : ℕ) (start : ℕ) where
  alone :
      (j : ℕ) (pc : Pc)
      → get_elem? ts i ≡ some (holding start)
      → get_elem? ts j ≡ some pc
      → in_cs pc ≡ true
      → i ≡ j
  alone j (holding k) at other h =
      elim (count-two is_owner ts i j (holding start) (holding k) at other refl refl) [
        | inl same ↦ same
        | inr two ↦ absurd (omega (arith, two, inv.owners, inv.one_owner))
      ]
  alone j (inside slot e) at other h =
      let me = self d ts inv i (holding start) at in
      absurd (omega (arith, in_slot-pos d slot (inside-pos d ts inv j slot e other).1, me.2, me.3))
  alone j idle at other h = cc
  alone j (entering _ _) at other h = cc
  alone j (leaving _) at other h = cc
  alone j (exiting _ _) at other h = cc
  alone j (locking _) at other h = cc
  alone j (barrier _) at other h = cc

pub returned : (P : System → Type 0) (r : Result System) (t : System) → r ≡ ok t → Returns P r → P t
returned P (ok s) t e h = subst P (cc) h
returned P (err e) t e' h = absurd h

-- After any history of fewer than 2 ^ 15 threads: while a thread holds the exclusive lock, no other
-- thread is in a critical section, shared or exclusive.
pub holding_alone :
    (e n : ℕ) (actions : List Action) (t : System) (i j k : ℕ) (pc : Pc)
    → e < u32_mod
    → n < 2 ^ 15
    → run (start e n) actions ≡ ok t
    → get_elem? t.threads i ≡ some (holding k)
    → get_elem? t.threads j ≡ some pc
    → i ≢ j
    → in_cs pc ≡ false
holding_alone e n actions t i j k pc h few done at other apart = elim (Bool-cases (in_cs pc)) [
  | inr free ↦ free
  | inl there ↦ absurd (
      apart (
        alone t.shared t.threads
          (returned SystemInv (run (start e n) actions) t done
            (history-SystemInv e n actions h few))
          i k j pc at other there))
]
