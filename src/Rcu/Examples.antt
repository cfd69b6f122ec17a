-- ===== src/Rcu/Examples.antt =====
-- The theorems about protected pointers at concrete histories.
use soa.Prelude.{true, false, ◌+◌, ◌≡◌, refl, none, some, List, [], ◌∷◌, count}
use soa.Rcu.{Handles, HandleCall, construct, move_from, copy_with, move_assign, destroy}
use soa.Rcu.Shares.{holds}
use soa.Rcu.Cells.{
  run_cells, no_cells, CellCall, make_cell, cmp_xchg, replace_cell, assign_cell, drop_cell,
}
use soa.Rcu.Counts.{owned}
use soa.Rcu.Ownership.{times_taken, run_cells-owned}
use soa.Rcu.Histories.{run, nothing_held, total_loss, run-shares}

-- Two handles on lock 7; the second is assigned to the first, and both end.
abbrev reassigned : List HandleCall
reassigned =
    construct (some 1) (some 7)
    ∷ copy_with 0 (some 2)
    ∷ move_assign 0 1
    ∷ destroy 0
    ∷ destroy 1
    ∷ []

run-shares_example :
    (run reassigned nothing_held).shared 7
    ≡ count (holds 7) (run reassigned nothing_held).handles + total_loss 7 reassigned nothing_held
run-shares_example = run-shares 7 reassigned

-- No handle is left, but the lock is shared for good.
share_left :
    ((run reassigned nothing_held).shared 7 ≡ 1)
    × (count (holds 7) (run reassigned nothing_held).handles ≡ 0)
unfolding run
share_left = (refl, refl)

-- A handle that was moved from by conversion keeps its pointer and has no lock.
abbrev moved_from : Handles
moved_from = run (construct (some 1) (some 7) ∷ move_from 0 ∷ []) nothing_held

pointer_without_lock :
    moved_from.handles
    ≡ record { ptr = some 1; lock = none } ∷ record { ptr = some 1; lock = some 7 } ∷ []
unfolding run
pointer_without_lock = refl

-- Object 1 is replaced by 2, 2 by 3 at once, and the cell moves to another before it ends.
abbrev cell_calls : List CellCall
cell_calls =
    make_cell (some 1) 7
    ∷ cmp_xchg 0 (some 1) (some 2) true true
    ∷ cmp_xchg 0 (some 1) (some 9) true true
    ∷ replace_cell 0 (some 3) false
    ∷ make_cell (some 4) 8
    ∷ assign_cell 1 0
    ∷ drop_cell 1
    ∷ []

run_cells-owned_example :
    owned 2 (run_cells cell_calls no_cells) ≡ times_taken 2 cell_calls no_cells
run_cells-owned_example = run_cells-owned 2 cell_calls

-- The object of cell 1, which was read under lock 8, is deferred on lock 7.
deferred_on_other_lock : (run_cells cell_calls no_cells).deferred ≡ (7, 3) ∷ (7, 4) ∷ (7, 1) ∷ []
unfolding run_cells
deferred_on_other_lock = refl
