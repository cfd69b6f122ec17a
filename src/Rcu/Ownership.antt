-- ===== src/Rcu/Ownership.antt =====
-- gc/rcu_protected.h: no object of a cell is lost, and none is deleted twice.
use soa.Prelude.{
  ℕ, ◌+◌, ◌≡◌, Bool, true, false, not, ◌&&◌, Option, none, some, List, [], ◌∷◌, ◌++◌, if◌then◌else◌,
  get_elem?, set, arith,
}
use soa.Rcu.Cells.{
  run_cells, no_cells, no_object, copy_cell, copy_assign, Cell, Cells, same_ptr, defer_delete,
  hand_out, put_cell, CellCall, make_cell, move_cell, drop_cell, assign_cell, replace_cell,
  replace_custom, cmp_xchg, retire, fails, exchange, at_cell, apply_cell, at_cell_taken, taken,
}
use soa.Rcu.Counts.{
  defer_delete-owned, hand_out-owned, retire-owned, put_cell-owned, count-append, exchange-owned,
  written, on_cell, on_cell_kept, owned, has,
}

module _ (p : ℕ) where
  unchanged :
      (b : Bool) (x w : Cells) (new : Option ℕ)
      → owned p x ≡ owned p w + has p new
      → owned p (if b then x else w) ≡ owned p w + has p (if b then new else none)
  unchanged true x w new h = h
  unchanged false x w new h = omega arith

  replaced :
      (b : Bool) (x w : Cells) (new : Option ℕ)
      → owned p x ≡ owned p w + has p new
      → owned p (if b then w else x) ≡ owned p w + has p (if b then none else new)
  replaced true x w new h = omega arith
  replaced false x w new h = h

  copy_assigned :
      (i : ℕ) (c o : Cell) (fresh : ℕ) (w : Cells)
      → get_elem? w.cells i ≡ some c
      → owned p (
          if no_object o.val
          then put_cell i (record c { lock = o.lock }) w
          else defer_delete o.lock c.val
              (put_cell i (record { val = some fresh; lock = o.lock }) w))
        ≡ owned p w + has p (if no_object o.val then none else some fresh)
  copy_assigned i c o fresh w at_i =
      let kept = put_cell-owned p i c (record c { lock = o.lock }) w at_i in
      let put = put_cell-owned p i c (record { val = some fresh; lock = o.lock }) w at_i in
      let out =
        defer_delete-owned p o.lock c.val
          (put_cell i (record { val = some fresh; lock = o.lock }) w) in
      both (no_object o.val) (put_cell i (record c { lock = o.lock }) w)
        (defer_delete o.lock c.val (put_cell i (record { val = some fresh; lock = o.lock }) w))
        (omega (arith, kept)) (omega (arith, put, out))
    where
      both :
          (b : Bool) (x y : Cells)
          → owned p x ≡ owned p w
          → owned p y ≡ owned p w + has p (some fresh)
          → owned p (if b then x else y) ≡ owned p w + has p (if b then none else some fresh)
      both true x y h k = omega (arith, h)
      both false x y h k = k

  apply_cell-Conserves :
      (c : CellCall) (w : Cells) → owned p (apply_cell c w) ≡ owned p w + has p (taken c w)
  unfolding apply_cell
  apply_cell-Conserves (make_cell v l) w =
      let more = count-append p w.cells (record { val = v; lock = l }) in omega (arith, more)
  apply_cell-Conserves (move_cell j) w =
      let kept =
        on_cell_kept p j
          (λ o. record w { cells = set w.cells j (record o { val = none }) ++ (o ∷ []) }) w
          (λ o at_j.
            let put = put_cell-owned p j o (record o { val = none }) w at_j in
            let more = count-append p (set w.cells j (record o { val = none })) o in
            omega (arith, put, more)) in
      omega (arith, kept)
  apply_cell-Conserves (drop_cell i) w =
      let kept =
        on_cell_kept p i (λ c. defer_delete c.lock c.val (put_cell i (record c { val = none }) w)) w
          (λ c at_i.
            let put = put_cell-owned p i c (record c { val = none }) w at_i in
            let out = defer_delete-owned p c.lock c.val (put_cell i (record c { val = none }) w) in
            omega (arith, put, out)) in
      omega (arith, kept)
  apply_cell-Conserves (assign_cell i j) w =
      let kept =
        on_cell_kept p i
          (λ c.
            at_cell j
              (λ o.
                defer_delete o.lock c.val (put_cell j (record o { val = none }) (put_cell i o w)))
              w)
          w
          (λ c at_i.
            on_cell_kept p j
              (λ o.
                defer_delete o.lock c.val (put_cell j (record o { val = none }) (put_cell i o w)))
              w
              (λ o at_j.
                let first = put_cell-owned p i c o w at_i in
                let second =
                  put_cell-owned p j o (record o { val = none }) (put_cell i o w)
                    (written p i j c o w.cells at_i at_j) in
                let out =
                  defer_delete-owned p o.lock c.val
                    (put_cell j (record o { val = none }) (put_cell i o w)) in
                omega (arith, first, second, out))) in
      omega (arith, kept)
  apply_cell-Conserves (copy_cell j fresh) w =
      on_cell p j
        (λ o.
          if no_object o.val
          then w
          else record w { cells = w.cells ++ (record { val = some fresh; lock = o.lock } ∷ []) })
        (λ o. if no_object o.val then none else some fresh) w
        (λ o at_j.
          let more = count-append p w.cells (record { val = some fresh; lock = o.lock }) in
          replaced (no_object o.val)
            (record w { cells = w.cells ++ (record { val = some fresh; lock = o.lock } ∷ []) }) w
            (some fresh) (omega (arith, more)))
  apply_cell-Conserves (copy_assign i j fresh) w =
      on_cell p i
        (λ c.
          at_cell j
            (λ o.
              if no_object o.val
              then put_cell i (record c { lock = o.lock }) w
              else defer_delete o.lock c.val
                  (put_cell i (record { val = some fresh; lock = o.lock }) w))
            w)
        (λ c. at_cell_taken j (λ o. if no_object o.val then none else some fresh) w) w
        (λ c at_i.
          on_cell p j
            (λ o.
              if no_object o.val
              then put_cell i (record c { lock = o.lock }) w
              else defer_delete o.lock c.val
                  (put_cell i (record { val = some fresh; lock = o.lock }) w))
            (λ o. if no_object o.val then none else some fresh) w
            (λ o at_j. copy_assigned i c o fresh w at_i))
  apply_cell-Conserves (replace_cell i new defer) w =
      on_cell p i
        (λ c.
          if fails c.val new
          then w
          else retire defer c.lock c.val (put_cell i (record c { val = new }) w))
        (λ c. if fails c.val new then none else new) w
        (λ c at_i.
          let x = retire defer c.lock c.val (put_cell i (record c { val = new }) w) in
          let put = put_cell-owned p i c (record c { val = new }) w at_i in
          let out = retire-owned p defer c.lock c.val (put_cell i (record c { val = new }) w) in
          replaced (fails c.val new) x w new (omega (arith, put, out)))
  apply_cell-Conserves (replace_custom i new) w =
      on_cell p i (λ c. hand_out c.val (put_cell i (record c { val = new }) w)) (λ c. new) w
        (λ c at_i.
          let put = put_cell-owned p i c (record c { val = new }) w at_i in
          let out = hand_out-owned p c.val (put_cell i (record c { val = new }) w) in
          omega (arith, put, out))
  apply_cell-Conserves (cmp_xchg i expected new defer cleanup) w =
      on_cell p i
        (λ c.
          if same_ptr c.val expected && not (same_ptr c.val new)
          then exchange i c new defer cleanup w
          else w)
        (λ c. if same_ptr c.val expected && not (same_ptr c.val new) then new else none) w
        (λ c at_i.
          unchanged (same_ptr c.val expected && not (same_ptr c.val new))
            (exchange i c new defer cleanup w) w new
            (exchange-owned p i c new defer cleanup w at_i))

module _ (p : ℕ) where
  -- How often the calls of a history take an object over.
  abbrev pub times_taken : List CellCall → Cells → ℕ
  times_taken [] w = 0
  times_taken (c ∷ cs) w = has p (taken c w) + times_taken cs (apply_cell c w)

  run_cells-Conserves :
      (cs : List CellCall) (w : Cells) → owned p (run_cells cs w) ≡ owned p w + times_taken cs w
  unfolding run_cells
  run_cells-Conserves [] w = omega arith
  run_cells-Conserves (c ∷ cs) w =
      let first = apply_cell-Conserves p c w in
      let rest = run_cells-Conserves cs (apply_cell c w) in omega (arith, first, rest)

  -- After any history of calls an object stands as often in a cell, among the deferred or finished deletions,
  -- among the objects handed out, or among those let go without a cleanup, as the calls have taken it over.
  pub run_cells-owned :
      (cs : List CellCall) → owned p (run_cells cs no_cells) ≡ times_taken cs no_cells
  run_cells-owned cs = let all = run_cells-Conserves cs no_cells in omega (arith, all)
