-- ===== src/Rcu/Cells.antt =====
-- `RcuProtected` of gc/rcu_protected.h: cells that own an object each. The cells stand in a list, of which an
-- index names one; a call that names a cell that does not exist does nothing. Deferred deletions come with
-- their lock. The wait of `visibleBarrier` is not modelled; exchanges are atomic.
use soa.Prelude.{
  ℕ, Bool, true, false, ◌&&◌, not, Option, none, some, List, [], ◌∷◌, ◌++◌, ◌==◌, if◌then◌else◌,
  get_elem?, set,
}

pub record Cell : Type 0 where
  pub val : Option ℕ
  pub lock : ℕ

-- The objects that were deferred, deleted at once, given back by `replaceCustomCleanup`, or let go by a
-- `cmp_xchg` without a cleanup.
pub record Cells : Type 0 where
  pub cells : List Cell
  pub deferred : List (ℕ × ℕ)
  pub deleted : List ℕ
  pub handed : List ℕ
  pub abandoned : List ℕ

abbrev pub same_ptr : Option ℕ → Option ℕ → Bool
same_ptr none none = true
same_ptr none (some q) = false
same_ptr (some p) none = false
same_ptr (some p) (some q) = p == q

-- `deferDelete`
abbrev pub defer_delete : ℕ → Option ℕ → Cells → Cells
defer_delete l none w = w
defer_delete l (some p) w = record w { deferred = (l, p) ∷ w.deferred }

abbrev pub delete_now : Option ℕ → Cells → Cells
delete_now none w = w
delete_now (some p) w = record w { deleted = p ∷ w.deleted }

abbrev pub hand_out : Option ℕ → Cells → Cells
hand_out none w = w
hand_out (some p) w = record w { handed = p ∷ w.handed }

abbrev pub abandon : Option ℕ → Cells → Cells
abandon none w = w
abandon (some p) w = record w { abandoned = p ∷ w.abandoned }

abbrev pub put_cell : ℕ → Cell → Cells → Cells
put_cell i c w = record w { cells = set w.cells i c }

pub data CellCall : Type 0 where
  make_cell : Option ℕ → ℕ → CellCall
  move_cell drop_cell : ℕ → CellCall
  assign_cell : ℕ → ℕ → CellCall
  -- `RcuProtectedCopyable`, with the pointer of the new object
  copy_cell : ℕ → ℕ → CellCall
  copy_assign : ℕ → ℕ → ℕ → CellCall
  replace_cell : ℕ → Option ℕ → Bool → CellCall
  replace_custom : ℕ → Option ℕ → CellCall
  -- the pointer that is expected, the new one, `defer`, and whether there is a cleanup
  cmp_xchg : ℕ → Option ℕ → Option ℕ → Bool → Bool → CellCall

-- A null pointer is not retired, and an object is not replaced by itself: the assertion fails.
abbrev pub retire : Bool → ℕ → Option ℕ → Cells → Cells
retire defer l old w = if defer then defer_delete l old w else delete_now old w

abbrev pub fails : Option ℕ → Option ℕ → Bool
fails none new = false
fails (some p) new = same_ptr (some p) new

-- `cmp_xchg` compares its two pointers also where they are null.
abbrev pub exchange : ℕ → Cell → Option ℕ → Bool → Bool → Cells → Cells
exchange i c new defer cleanup w =
    let w' = put_cell i (record c { val = new }) w in
    if cleanup then retire defer c.lock c.val w' else abandon c.val w'

abbrev pub at_cell : ℕ → (Cell → Cells) → Cells → Cells
at_cell i next w = elim (get_elem? w.cells i) [ none ↦ w | some c ↦ next c ]

abbrev pub no_object : Option ℕ → Bool
no_object none = true
no_object (some p) = false

-- A copy of a null pointer throws. Where a pointer is assigned, its lock has been replaced by then.
unfoldable pub apply_cell : CellCall → Cells → Cells
apply_cell (make_cell v l) w = record w { cells = w.cells ++ (record { val = v; lock = l } ∷ []) }
apply_cell (move_cell j) w =
    at_cell j
      (λ o.
        let w' = put_cell j (record o { val = none }) w in
        record w' { cells = w'.cells ++ (o ∷ []) })
      w
apply_cell (drop_cell i) w =
    at_cell i (λ c. defer_delete c.lock c.val (put_cell i (record c { val = none }) w)) w
apply_cell (assign_cell i j) w =
    at_cell i
      (λ c.
        at_cell j
          (λ o. defer_delete o.lock c.val (put_cell j (record o { val = none }) (put_cell i o w)))
          w)
      w
apply_cell (copy_cell j fresh) w =
    at_cell j
      (λ o.
        if no_object o.val
        then w
        else record w { cells = w.cells ++ (record { val = some fresh; lock = o.lock } ∷ []) })
      w
apply_cell (copy_assign i j fresh) w =
    at_cell i
      (λ c.
        at_cell j
          (λ o.
            if no_object o.val
            then put_cell i (record c { lock = o.lock }) w
            else defer_delete o.lock c.val
                (put_cell i (record { val = some fresh; lock = o.lock }) w))
          w)
      w
apply_cell (replace_cell i new defer) w =
    at_cell i
      (λ c.
        if fails c.val new
        then w
        else retire defer c.lock c.val (put_cell i (record c { val = new }) w))
      w
apply_cell (replace_custom i new) w =
    at_cell i (λ c. hand_out c.val (put_cell i (record c { val = new }) w)) w
apply_cell (cmp_xchg i expected new defer cleanup) w =
    at_cell i
      (λ c.
        if same_ptr c.val expected && not (same_ptr c.val new)
        then exchange i c new defer cleanup w
        else w)
      w

-- The object that a cell takes over in a call.
abbrev pub at_cell_taken : ℕ → (Cell → Option ℕ) → Cells → Option ℕ
at_cell_taken i next w = elim (get_elem? w.cells i) [ none ↦ none | some c ↦ next c ]

abbrev pub taken : CellCall → Cells → Option ℕ
taken (make_cell v l) w = v
taken (move_cell j) w = none
taken (drop_cell i) w = none
taken (assign_cell i j) w = none
taken (copy_cell j fresh) w = at_cell_taken j (λ o. if no_object o.val then none else some fresh) w
taken (copy_assign i j fresh) w =
    at_cell_taken i (λ c. at_cell_taken j (λ o. if no_object o.val then none else some fresh) w) w
taken (replace_cell i new defer) w = at_cell_taken i (λ c. if fails c.val new then none else new) w
taken (replace_custom i new) w = at_cell_taken i (λ c. new) w
taken (cmp_xchg i expected new defer cleanup) w =
    at_cell_taken i (λ c. if same_ptr c.val expected && not (same_ptr c.val new) then new else none)
      w

unfoldable pub run_cells : List CellCall → Cells → Cells
unfolding apply_cell
run_cells [] w = w
run_cells (c ∷ cs) w = run_cells cs (apply_cell c w)

abbrev pub no_cells : Cells
no_cells = record { cells = []; deferred = []; deleted = []; handed = []; abandoned = [] }
