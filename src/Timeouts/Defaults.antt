-- ===== src/Timeouts/Defaults.antt =====
-- service/timeout_map.h: no operation changes the default timeout of a map.
use soa.Prelude.{
  ℕ, zero, suc, ◌≡◌, refl, subst, Bool, true, Bool-cases, Option, none, some, Option-cases, List,
  [], ◌∷◌, ok, err, ◌>>=◌, inl, inr,
}
use soa.Timeouts.{Date, date_le, Node, TimeoutMap, find, put, due, is_null}
use soa.Timeouts.Ops.{
  Result, index, insert, update, update_timeout, access, relink, link, unlink, erase, expire_loop,
}
use soa.Timeouts.Callbacks.{Answer, renew, rearm, expire_calling, expire_with, first_key, next_key}
use soa.Timeouts.Calls.{
  PlainCall, insert_call, update_call, update_timeout_call, access_call, erase_call, expire_call,
  clear_call, apply,
}

-- A result, where there is one, has a default timeout.
abbrev pub HasDefault : {K V : Type 0} → Option ℕ → Result (TimeoutMap K V) → Type 0
HasDefault t (ok m) = m.default_timeout ≡ t
HasDefault t (err e) = Unit

module _ {K V : Type 0} (dec : Discrete K) where
  unlink-HasDefault :
      (k : K) (n : Node V) (m : TimeoutMap K V) → HasDefault m.default_timeout (unlink dec k n m)
  unfolding unlink
  unlink-HasDefault k n m = elim (Option-cases n.timeout_it) [
    | inl e ↦ rw (e, unlink) tt
    | inr (d, e) ↦ rw (e, unlink) refl
  ]

  relink-HasDefault :
      (k : K) (n : Node V) (d : Date) (m : TimeoutMap K V)
      → HasDefault m.default_timeout (relink dec k n d m)
  unfolding relink
  relink-HasDefault k n d m = elim (Option-cases n.timeout_it) [
    | inl e ↦ rw (e, relink) tt
    | inr (o, e) ↦ rw (e, relink) refl
  ]

  flag-HasDefault :
      (t : Option ℕ) (x : Result (TimeoutMap K V))
      → HasDefault t x
      → let flagged : TimeoutMap K V → Result (TimeoutMap K V × Bool) = λ m. ok (m, true) in
        HasDefault t ((x >>= flagged) >>= λ r. ok r.0)
  flag-HasDefault t (ok m) h = h
  flag-HasDefault t (err e) h = tt

  -- A result of a call, and then of more.
  then-HasDefault :
      (t : Option ℕ) (x : Result (TimeoutMap K V)) (next : TimeoutMap K V → Result (TimeoutMap K V))
      → HasDefault t x
      → ((m : TimeoutMap K V) → m.default_timeout ≡ t → HasDefault t (next m))
      → HasDefault t (x >>= next)
  then-HasDefault t (ok m) next h k = k m h
  then-HasDefault t (err e) next h k = tt

  expire_loop-HasDefault :
      (t : Option ℕ) (now : Date) (ts : List (Date × K)) (m : TimeoutMap K V)
      → m.default_timeout ≡ t
      → HasDefault t (expire_loop dec now ts m)
  unfolding expire_loop
  expire_loop-HasDefault t now [] m h = h
  expire_loop-HasDefault t now ((d, k) ∷ ts) m h = elim (Bool-cases (date_le d now)) [
    | inr late ↦ rw (late, expire_loop) h
    | inl early ↦ elim (Option-cases (find dec k m.nodes)) [
      | inl e ↦ rw (early, e, expire_loop) tt
      | inr (n, e) ↦
          rw (early, e, expire_loop)
            (then-HasDefault t (unlink dec k n m) (expire_loop dec now ts)
              (subst (λ o. HasDefault o (unlink dec k n m)) h (unlink-HasDefault k n m))
              (λ m' h'. expire_loop-HasDefault t now ts m' h'))
    ]
  ]

  module _ (default : V) where
    pub apply-HasDefault :
        (c : PlainCall K V) (m : TimeoutMap K V)
        → HasDefault m.default_timeout (apply dec default c m)
    unfolding apply
    apply-HasDefault (insert_call k v d) m = elim (Option-cases (find dec k m.nodes)) [
      | inl e ↦ rw (e, insert, link) refl
      | inr (n, e) ↦ rw (e, insert) tt
    ]
    apply-HasDefault (update_call k v) m = elim (Option-cases (find dec k m.nodes)) [
      | inl e ↦ rw (e, update) tt
      | inr (n, e) ↦ rw (e, update) refl
    ]
    apply-HasDefault (update_timeout_call k d) m = elim (Option-cases (find dec k m.nodes)) [
      | inl e ↦ rw (e, update_timeout) tt
      | inr (n, e) ↦ rw (e, update_timeout) (relink-HasDefault k n d m)
    ]
    apply-HasDefault (access_call k d) m = elim (Option-cases (find dec k m.nodes)) [
      | inl e ↦ rw (e, access, link) refl
      | inr (n, e) ↦ rw (e, access) (relink-HasDefault k n d m)
    ]
    apply-HasDefault (erase_call k) m = elim (Option-cases (find dec k m.nodes)) [
      | inl e ↦ rw (e, erase) refl
      | inr (n, e) ↦
          rw (e, erase)
            (flag-HasDefault m.default_timeout (unlink dec k n m) (unlink-HasDefault k n m))
    ]
    apply-HasDefault (expire_call now) m =
        expire_loop-HasDefault m.default_timeout now m.timeouts m refl
    apply-HasDefault clear_call m = refl

    pub index-default_timeout :
        (now : Date) (k : K) (m : TimeoutMap K V)
        → (index dec default now k m).1.default_timeout ≡ m.default_timeout
    unfolding index link
    index-default_timeout now k m = elim (Option-cases (find dec k m.nodes)) [
      | inr (n, e) ↦ rw (e, index) refl
      | inl e ↦ elim (Option-cases m.default_timeout) [
        | inl f ↦ rw (e, f, index) f
        | inr (t, f) ↦ rw (e, f, index) f
      ]
    ]

module _ {K V U : Type 0} (dec : Discrete K) (callback : K → V → U → Answer V U) (now : Date) where
  renew-HasDefault :
      (k : K) (n : Node V) (r : Answer V U) (m : TimeoutMap K V)
      → HasDefault m.default_timeout (renew dec k n r m)
  unfolding renew unlink rearm
  renew-HasDefault k n r m =
      let seen = record n { value = r.value } in
      let changed = record m { nodes = put dec k seen m.nodes } in
      elim (Bool-cases (is_null r.expiry)) [
        | inl b ↦ rw (b, renew) (unlink-HasDefault dec k seen changed)
        | inr b ↦ elim (Option-cases n.timeout_it) [
          | inl e ↦ rw (b, e, renew, rearm) tt
          | inr (d, e) ↦ rw (b, e, renew, rearm) refl
        ]
      ]

  left-then :
      (t : Option ℕ) (x : Result (TimeoutMap K V))
      (next : TimeoutMap K V → Result (U × TimeoutMap K V))
      → HasDefault t x
      → ((m : TimeoutMap K V) → m.default_timeout ≡ t → HasDefault t (next m >>= λ r. ok r.1))
      → HasDefault t ((x >>= next) >>= λ r. ok r.1)
  left-then t (ok m) next h k = k m h
  left-then t (err e) next h k = tt

  left-HasDefault :
      (t : Option ℕ) (fuel : ℕ) (it : Option K) (u : U) (m : TimeoutMap K V)
      → m.default_timeout ≡ t
      → HasDefault t (expire_calling dec callback now fuel it u m >>= λ r. ok r.1)
  unfolding expire_calling
  left-HasDefault t zero it u m h = tt
  left-HasDefault t (suc fuel) none u m h = h
  left-HasDefault t (suc fuel) (some k) u m h = elim (Option-cases (due dec k m.timeouts)) [
    | inl e ↦ rw (e, expire_calling) tt
    | inr (d, e) ↦ elim (Bool-cases (date_le d now)) [
      | inr late ↦ rw (e, late, expire_calling) h
      | inl early ↦ elim (Option-cases (find dec k m.nodes)) [
        | inl f ↦ rw (e, early, f, expire_calling) tt
        | inr (n, f) ↦
            let r = callback k n.value u in
            rw (e, early, f, expire_calling)
              (left-then t (renew dec k n r m)
                (expire_calling dec callback now fuel (next_key dec k m.timeouts) r.state)
                (subst (λ o. HasDefault o (renew dec k n r m)) h (renew-HasDefault k n r m))
                (λ m' h'. left-HasDefault t fuel (next_key dec k m.timeouts) r.state m' h'))
      ]
    ]
  ]

  pub expire_with-HasDefault :
      (fuel : ℕ) (u : U) (m : TimeoutMap K V)
      → HasDefault m.default_timeout (expire_with dec callback now fuel u m >>= λ r. ok r.1)
  unfolding expire_with
  expire_with-HasDefault fuel u m =
      left-HasDefault m.default_timeout fuel (first_key m.timeouts) u m refl
