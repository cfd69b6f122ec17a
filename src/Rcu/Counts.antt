-- ===== src/Rcu/Counts.antt =====
-- gc/rcu_protected.h: how often the steps of a call leave an object somewhere.
use native.Mathlib.Decide.{ℕ_discrete}
use soa.Prelude.{
  ℕ, ◌+◌, ◌≡◌, refl, subst, ◌∙◌, Bool, true, false, inl, inr, Option, none, some, Option-cases,
  List, [], ◌∷◌, ◌++◌, ◌==◌, if◌then◌else◌, get_elem?, get_elem?-set_ne, get_elem?-set_self, set,
  count, count-set, arith,
}
use soa.Rcu.Cells.{
  Cell, Cells, defer_delete, delete_now, hand_out, abandon, put_cell, retire, exchange, at_cell,
  at_cell_taken,
}

abbrev pub is_ptr : ℕ → Option ℕ → Bool
is_ptr p none = false
is_ptr p (some q) = q == p

abbrev pub has : ℕ → Option ℕ → ℕ
has p o = if is_ptr p o then 1 else 0

module _ (p : ℕ) where
  -- How often an object is in a cell, or was deferred, deleted, handed out or let go.
  abbrev pub owned : Cells → ℕ
  owned w =
      count (λ c. is_ptr p c.val) w.cells
      + count (λ (d : ℕ × ℕ). d.1 == p) w.deferred
      + count (λ q. q == p) w.deleted
      + count (λ q. q == p) w.handed
      + count (λ q. q == p) w.abandoned

  pub defer_delete-owned :
      (l : ℕ) (o : Option ℕ) (w : Cells) → owned (defer_delete l o w) ≡ owned w + has p o
  defer_delete-owned l none w = omega arith
  defer_delete-owned l (some q) w = omega arith

  pub delete_now-owned : (o : Option ℕ) (w : Cells) → owned (delete_now o w) ≡ owned w + has p o
  delete_now-owned none w = omega arith
  delete_now-owned (some q) w = omega arith

  pub hand_out-owned : (o : Option ℕ) (w : Cells) → owned (hand_out o w) ≡ owned w + has p o
  hand_out-owned none w = omega arith
  hand_out-owned (some q) w = omega arith

  pub abandon-owned : (o : Option ℕ) (w : Cells) → owned (abandon o w) ≡ owned w + has p o
  abandon-owned none w = omega arith
  abandon-owned (some q) w = omega arith

  pub retire-owned :
      (d : Bool) (l : ℕ) (o : Option ℕ) (w : Cells) → owned (retire d l o w) ≡ owned w + has p o
  retire-owned true l o w = defer_delete-owned l o w
  retire-owned false l o w = delete_now-owned o w

  pub put_cell-owned :
      (i : ℕ) (c v : Cell) (w : Cells)
      → get_elem? w.cells i ≡ some c
      → owned (put_cell i v w) + has p c.val ≡ owned w + has p v.val
  put_cell-owned i c v w at_i =
      let changed = count-set (λ (x : Cell). is_ptr p x.val) w.cells i v c at_i in
      omega (arith, changed)

  pub count-append :
      (cs : List Cell) (v : Cell)
      → count (λ (c : Cell). is_ptr p c.val) (cs ++ (v ∷ []))
        ≡ count (λ (c : Cell). is_ptr p c.val) cs + has p v.val
  count-append [] v = omega arith
  count-append (c ∷ cs) v = let ih = count-append cs v in omega (arith, ih)

  pub exchange-owned :
      (i : ℕ) (c : Cell) (new : Option ℕ) (defer cleanup : Bool) (w : Cells)
      → get_elem? w.cells i ≡ some c
      → owned (exchange i c new defer cleanup w) ≡ owned w + has p new
  exchange-owned i c new defer true w at_i =
      let put = put_cell-owned i c (record c { val = new }) w at_i in
      let out = retire-owned defer c.lock c.val (put_cell i (record c { val = new }) w) in
      omega (arith, put, out)
  exchange-owned i c new defer false w at_i =
      let put = put_cell-owned i c (record c { val = new }) w at_i in
      let out = abandon-owned c.val (put_cell i (record c { val = new }) w) in
      omega (arith, put, out)

  pub written :
      (i j : ℕ) (c o : Cell) (cs : List Cell)
      → get_elem? cs i ≡ some c
      → get_elem? cs j ≡ some o
      → get_elem? (set cs i o) j ≡ some o
  written i j c o cs at_i at_j = elim (ℕ_discrete i j) [
    | yes same ↦
        subst (λ k. get_elem? (set cs i o) k ≡ some o) same (get_elem?-set_self cs i o c at_i)
    | no other ↦ get_elem?-set_ne cs o other ∙ at_j
  ]

  -- A call on a cell that is there, and one on a cell that is not.
  pub on_cell :
      (i : ℕ) (next : Cell → Cells) (got : Cell → Option ℕ) (w : Cells)
      → ((c : Cell) → get_elem? w.cells i ≡ some c → owned (next c) ≡ owned w + has p (got c))
      → owned (at_cell i next w) ≡ owned w + has p (at_cell_taken i got w)
  on_cell i next got w h = elim (Option-cases (get_elem? w.cells i)) [
    | inl nothing ↦ rw (nothing, at_cell, at_cell_taken) (omega arith)
    | inr (c, at_i) ↦ let done = h c at_i in rw (at_i, at_cell, at_cell_taken) done
  ]

  -- A call that takes nothing.
  pub on_cell_kept :
      (i : ℕ) (next : Cell → Cells) (w : Cells)
      → ((c : Cell) → get_elem? w.cells i ≡ some c → owned (next c) ≡ owned w)
      → owned (at_cell i next w) ≡ owned w
  on_cell_kept i next w h = elim (Option-cases (get_elem? w.cells i)) [
    | inl nothing ↦ rw (nothing, at_cell) refl
    | inr (c, at_i) ↦ let done = h c at_i in rw (at_i, at_cell) done
  ]
