-- ===== src/Rcu/Shares.antt =====
-- gc/rcu_protected.h: the shares of a lock against the handles that hold it.
use soa.Prelude.{
  ℕ, ◌+◌, ◌≤◌, ◌≡◌, subst, ◌∙◌, Bool, true, false, Bool-cases, inl, inr, Option, none, some,
  Option-cases, List, [], ◌∷◌, ◌++◌, ◌==◌, if◌then◌else◌, get_elem?, get_elem?-set_ne,
  get_elem?-set_self, set, count, count-set, arith,
}
use native.Mathlib.Decide.{ℕ_discrete}
use soa.Rcu.{
  RcuLocked, Handles, released, same_lock, add_share, drop_share, add_handle, unlock, transfer,
  HandleCall, construct, move_with, move_from, copy_with, move_assign, convert_assign, unlock_call,
  destroy, move_new, step,
}

abbrev pub holds : ℕ → RcuLocked → Bool
holds l h = elim h.lock [ none ↦ false | some k ↦ k == l ]

-- A test as a number.
abbrev pub one_if : Bool → ℕ
one_if b = if b then 1 else 0

count-append :
    (p : RcuLocked → Bool) (hs : List RcuLocked) (h : RcuLocked)
    → count p (hs ++ (h ∷ [])) ≡ count p hs + one_if (p h)
count-append p [] h = omega arith
count-append p (x ∷ hs) h = let ih = count-append p hs h in omega (arith, ih)

module _ (l : ℕ) where
  -- The thread has so many shares of the lock more than it has handles that hold it.
  abbrev pub Exceeds : ℕ → Handles → Type 0
  Exceeds n w = w.shared l ≡ count (holds l) w.handles + n

  add_share_lem :
      (o : Option ℕ) (p : Option ℕ) (s : ℕ → ℕ)
      → add_share o s l ≡ s l + one_if (holds l (record { ptr = p; lock = o }))
  add_share_lem none p s = omega arith
  add_share_lem (some k) p s = ground arith

  pub add_handle-Exceeds :
      (h : RcuLocked) (n : ℕ) (w : Handles) → Exceeds n w → Exceeds n (add_handle h true w)
  add_handle-Exceeds h n w e =
      let more = count-append (holds l) w.handles h in
      let share = add_share_lem h.lock h.ptr w.shared in omega (arith, e, more, share)

  set-Exceeds :
      (i : ℕ) (h v : RcuLocked) (s : ℕ → ℕ) (n : ℕ) (w : Handles)
      → get_elem? w.handles i ≡ some h
      → Exceeds n w
      → s l + one_if (holds l h) ≡ w.shared l + one_if (holds l v)
      → Exceeds n (record { handles = set w.handles i v; shared = s })
  set-Exceeds i h v s n w at_i e balance =
      let changed = count-set (holds l) w.handles i v h at_i in omega (arith, e, changed, balance)

  taken_back :
      (k : ℕ) (s : ℕ → ℕ) → one_if (k == l) ≤ s l → drop_share k s l + one_if (k == l) ≡ s l
  taken_back k s h = ground (arith, h)

  unlock_at :
      (i n : ℕ) (p o : Option ℕ) (w : Handles)
      → get_elem? w.handles i ≡ some (record { ptr = p; lock = o })
      → Exceeds n w
      → Exceeds n (unlock i w)
  unfolding unlock
  unlock_at i n p none w at_i e = rw (at_i, unlock) e
  unlock_at i n p (some k) w at_i e =
      let h : RcuLocked = record { ptr = p; lock = some k } in
      let dropped = count-set (holds l) w.handles i released h at_i in
      let back = taken_back k w.shared (omega (arith, e, dropped)) in
      rw (at_i, unlock)
        (set-Exceeds i h released (drop_share k w.shared) n w at_i e (omega (arith, back)))

  pub unlock-Exceeds : (i n : ℕ) (w : Handles) → Exceeds n w → Exceeds n (unlock i w)
  unfolding unlock
  unlock-Exceeds i n w e = elim (Option-cases (get_elem? w.handles i)) [
    | inl nothing ↦ rw (nothing, unlock) e
    | inr (h, at_i) ↦ unlock_at i n h.ptr h.lock w at_i e
  ]

  -- After an unlock the handle holds nothing.
  unlocked :
      (i : ℕ) (p o : Option ℕ) (w : Handles)
      → get_elem? w.handles i ≡ some (record { ptr = p; lock = o })
      → (q : Option ℕ) × (get_elem? (unlock i w).handles i ≡ some (record { ptr = q; lock = none }))
  unfolding unlock
  unlocked i p none w at_i = (p, rw (at_i, unlock) at_i)
  unlocked i p (some k) w at_i = (
    none,
    rw (at_i, unlock)
        (get_elem?-set_self w.handles i released (record { ptr = p; lock = some k }) at_i),
  )

  written :
      (i j : ℕ) (h o : RcuLocked) (hs : List RcuLocked)
      → get_elem? hs i ≡ some h
      → get_elem? hs j ≡ some o
      → get_elem? (set hs i o) j ≡ some o
  written i j h o hs at_i at_j = elim (ℕ_discrete i j) [
    | yes same ↦
        subst (λ k. get_elem? (set hs i o) k ≡ some o) same (get_elem?-set_self hs i o h at_i)
    | no other ↦ get_elem?-set_ne hs o other ∙ at_j
  ]

  transfer-Exceeds :
      (keep : Bool) (i j n : ℕ) (h o : RcuLocked) (w : Handles)
      → get_elem? w.handles i ≡ some h
      → get_elem? w.handles j ≡ some o
      → Exceeds n w
      → Exceeds (one_if (holds l h) + n) (transfer keep i j w)
  unfolding transfer
  transfer-Exceeds keep i j n h o w at_i at_j e =
      let left : RcuLocked = record { ptr = if keep then o.ptr else none; lock = none } in
      let first = count-set (holds l) w.handles i o h at_i in
      let second =
        count-set (holds l) (set w.handles i o) j left o (written i j h o w.handles at_i at_j) in
      rw (at_i, at_j, transfer) (omega (arith, e, first, second))

  pub transfer-unlocked :
      (keep : Bool) (i j n : ℕ) (w : Handles)
      → Exceeds n w
      → Exceeds n (transfer keep i j (unlock i w))
  unfolding transfer unlock
  transfer-unlocked keep i j n w e = elim (Option-cases (get_elem? w.handles i)) [
    | inl nothing ↦ rw (nothing, unlock) (rw (nothing, transfer) e)
    | inr (h, at_i) ↦
        let free = unlock-Exceeds i n w e in
        let (q, empty_i) = unlocked i h.ptr h.lock w at_i in
        elim (Option-cases (get_elem? (unlock i w).handles j)) [
          | inl nothing ↦ rw (empty_i, nothing, transfer) free
          | inr (o, at_j) ↦
              let moved =
                transfer-Exceeds keep i j n (record { ptr = q; lock = none }) o (unlock i w) empty_i
                  at_j free in
              omega (arith, moved)
        ]
  ]

  pub move_new-Exceeds :
      (given : Option (Option ℕ)) (j n : ℕ) (w : Handles)
      → Exceeds n w
      → Exceeds n (move_new given j w)
  move_new-Exceeds given j n w e = elim (Option-cases (get_elem? w.handles j)) [
    | inl nothing ↦ rw (nothing, move_new) e
    | inr (o, at_j) ↦
        let left : RcuLocked = record {
          ptr = elim given [ none ↦ o.ptr | some p ↦ none ];
          lock = none;
        } in
        let new : RcuLocked = record {
          ptr = elim given [ none ↦ o.ptr | some p ↦ p ];
          lock = o.lock;
        } in
        let emptied = count-set (holds l) w.handles j left o at_j in
        let added = count-append (holds l) (set w.handles j left) new in
        rw (at_j, move_new) (omega (arith, e, emptied, added))
  ]

  -- The shares that a call loses: one where a handle is assigned another one on the same lock.
  abbrev pub loses : HandleCall → Handles → ℕ
  loses (construct p k) w = 0
  loses (move_with j p) w = 0
  loses (move_from j) w = 0
  loses (copy_with j p) w = 0
  loses (move_assign i j) w = elim (get_elem? w.handles i) [
    | none ↦ 0
    | some h ↦ elim (get_elem? w.handles j) [
      | none ↦ 0
      | some o ↦ if same_lock h.lock o.lock then one_if (holds l h) else 0
    ]
  ]
  loses (convert_assign i j) w = 0
  loses (unlock_call i) w = 0
  loses (destroy i) w = 0

  pub move_assign-Exceeds :
      (i j n : ℕ) (w : Handles)
      → Exceeds n w
      → Exceeds (loses (move_assign i j) w + n) (step (move_assign i j) w)
  unfolding step
  move_assign-Exceeds i j n w e = elim (Option-cases (get_elem? w.handles i)) [
    | inl nothing ↦ rw (nothing, step, loses) (omega (arith, e))
    | inr (h, at_i) ↦ elim (Option-cases (get_elem? w.handles j)) [
      | inl nothing ↦ rw (at_i, nothing, step, loses) (omega (arith, e))
      | inr (o, at_j) ↦ elim (Bool-cases (same_lock h.lock o.lock)) [
        | inl same ↦
            rw (at_i, at_j, same, step, loses) (transfer-Exceeds false i j n h o w at_i at_j e)
        | inr differ ↦
            let done = transfer-unlocked false i j n w e in
            rw (at_i, at_j, differ, step, loses) (omega (arith, done))
      ]
    ]
  ]
