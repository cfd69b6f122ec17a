-- ===== src/Rcu.antt =====
-- `RcuLocked` of gc/rcu_protected.h: handles on a shared lock. The handles of a thread stand in a list, of
-- which an index names one, and of each lock there is the number of times that the thread has taken it. A
-- call that names a handle that does not exist does nothing. Pointers and locks are numbers.
pub mod Shares
pub mod Histories
pub mod Cells
pub mod Counts
pub mod Ownership
mod Examples
use soa.Prelude.{
  ℕ, zero, suc, ◌+◌, ◌-◌, ◌≡◌, Bool, true, false, Option, none, some, List, [], ◌∷◌, ◌++◌, ◌==◌,
  if◌then◌else◌, get_elem?, set, count,
}

pub record RcuLocked : Type 0 where
  pub ptr : Option ℕ
  pub lock : Option ℕ

-- `shared` counts `lockShared` less `unlockShared`.
pub record Handles : Type 0 where
  pub handles : List RcuLocked
  pub shared : ℕ → ℕ

abbrev pub released : RcuLocked
released = record { ptr = none; lock = none }

abbrev pub same_lock : Option ℕ → Option ℕ → Bool
same_lock none none = true
same_lock none (some k) = false
same_lock (some l) none = false
same_lock (some l) (some k) = l == k

abbrev pub add_share : Option ℕ → (ℕ → ℕ) → ℕ → ℕ
add_share none s k = s k
add_share (some l) s k = if l == k then s k + 1 else s k

abbrev pub drop_share : ℕ → (ℕ → ℕ) → ℕ → ℕ
drop_share l s k = if l == k then s k - 1 else s k

-- A new handle, with its own share of the lock or with one that it is given.
abbrev pub add_handle : RcuLocked → Bool → Handles → Handles
add_handle h take_share w = record {
  handles = w.handles ++ (h ∷ []);
  shared = if take_share then add_share h.lock w.shared else w.shared;
}

unfoldable pub unlock : ℕ → Handles → Handles
unlock i w = elim (get_elem? w.handles i) [
  | none ↦ w
  | some h ↦ elim h.lock [
    | none ↦ w
    | some l ↦ record { handles = set w.handles i released; shared = drop_share l w.shared }
  ]
]

-- The pointer and the lock of handle j go to handle i. Handle j loses its lock, and its pointer unless it
-- is kept.
unfoldable pub transfer : Bool → ℕ → ℕ → Handles → Handles
transfer keep i j w = elim (get_elem? w.handles i) [
  | none ↦ w
  | some h ↦ elim (get_elem? w.handles j) [
    | none ↦ w
    | some o ↦ record w {
      handles =
          set (set w.handles i o) j (record { ptr = if keep then o.ptr else none; lock = none });
    }
  ]
]

pub data HandleCall : Type 0 where
  construct : Option ℕ → Option ℕ → HandleCall
  -- with a pointer of its own
  move_with copy_with : ℕ → Option ℕ → HandleCall
  move_from : ℕ → HandleCall
  move_assign convert_assign : ℕ → ℕ → HandleCall
  unlock_call destroy : ℕ → HandleCall

-- Moving out of handle j into a new one, with its pointer or another.
abbrev pub move_new : Option (Option ℕ) → ℕ → Handles → Handles
move_new given j w = elim (get_elem? w.handles j) [
  | none ↦ w
  | some o ↦
      add_handle (record { ptr = elim given [ none ↦ o.ptr | some p ↦ p ]; lock = o.lock }) false
        (record w {
          handles =
              set w.handles j
                (record { ptr = elim given [ none ↦ o.ptr | some p ↦ none ]; lock = none });
        })
]

unfoldable pub step : HandleCall → Handles → Handles
unfolding unlock transfer
step (construct p l) w = add_handle (record { ptr = p; lock = l }) true w
step (move_with j p) w = move_new (some p) j w
step (move_from j) w = move_new none j w
step (copy_with j p) w = elim (get_elem? w.handles j) [
  | none ↦ w
  | some o ↦ add_handle (record { ptr = p; lock = o.lock }) true w
]
step (move_assign i j) w = elim (get_elem? w.handles i) [
  | none ↦ w
  | some h ↦ elim (get_elem? w.handles j) [
    | none ↦ w
    | some o ↦
        if same_lock h.lock o.lock then transfer false i j w else transfer false i j (unlock i w)
  ]
]
step (convert_assign i j) w = transfer true i j (unlock i w)
step (unlock_call i) w = unlock i w
step (destroy i) w = unlock i w
