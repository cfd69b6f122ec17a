-- ===== src/Timeouts/Calls.antt =====
-- Calls on a timeout map, against the function that it stands for: those that neither look at the default
-- timeout nor call back.
use mathlib.Core.Path.{ap₂}
use soa.Prelude.{
  ℕ, ◌≡◌, refl, sym, ◌∙◌, ◌⊎◌, inl, inr, Bool, true, false, Option, none, some, List, [], ◌∷◌, ok,
  err, ◌>>=◌,
}
use soa.Timeouts.{Date, key_exists, no_such_key, Node, TimeoutMap, new_map, find, due}
use soa.Timeouts.Ops.{
  Result, count, get, insert, update, update_timeout, access, unlink, erase, clear, expire,
}
use soa.Timeouts.Refinement.{Linked-cases, value_until, alive, Abstract, Represents, Matches, write}
use soa.Timeouts.Expiry.{Represents-cong, write_absent, drop_flag, expire-Matches}
use soa.Timeouts.Moves.{link-Represents, unlink-Matches, relink-Matches, revalue-Represents}

pub data PlainCall (K V : Type 0) : Type 0 where
  insert_call : K → V → Date → PlainCall K V
  update_call : K → V → PlainCall K V
  update_timeout_call access_call : K → Date → PlainCall K V
  erase_call : K → PlainCall K V
  expire_call : Date → PlainCall K V
  clear_call : PlainCall K V

module _ {K V : Type 0} (dec : Discrete K) (default : V) where
  unfoldable pub apply : PlainCall K V → TimeoutMap K V → Result (TimeoutMap K V)
  unfolding insert update update_timeout access erase expire clear
  apply (insert_call k v d) m = insert dec k v d m
  apply (update_call k v) m = update dec k v m
  apply (update_timeout_call k d) m = update_timeout dec k d m
  apply (access_call k d) m = access dec default k d m
  apply (erase_call k) m = erase dec k m >>= λ r. ok r.0
  apply (expire_call now) m = expire dec now m
  apply clear_call m = ok (clear dec m)

  -- What each call should do.
  unfoldable pub spec : PlainCall K V → Abstract K V → Result (Abstract K V)
  spec (insert_call k v d) a = elim (a k) [
    | none ↦ ok (write dec k (some (v, d)) a)
    | some x ↦ err key_exists
  ]
  spec (update_call k v) a = elim (a k) [
    | none ↦ err no_such_key
    | some x ↦ ok (write dec k (some (v, x.1)) a)
  ]
  spec (update_timeout_call k d) a = elim (a k) [
    | none ↦ err no_such_key
    | some x ↦ ok (write dec k (some (x.0, d)) a)
  ]
  spec (access_call k d) a = elim (a k) [
    | none ↦ ok (write dec k (some (default, d)) a)
    | some x ↦ ok (write dec k (some (x.0, d)) a)
  ]
  spec (erase_call k) a = ok (write dec k none a)
  spec (expire_call now) a = ok (λ k. alive now (a k))
  spec clear_call a = ok (λ k. none)

  abbrev pub or_else : {A : Type 0} → A → Result A → A
  or_else x (ok y) = y
  or_else x (err e) = x

  module _ (m : TimeoutMap K V) (a : Abstract K V) (r : Represents dec m a) where
    -- A key is in the map with its deadline, or it is not there at all.
    pub key_cases :
        (k : K)
        → ((find dec k m.nodes ≡ none) × (due dec k m.timeouts ≡ none) × (a k ≡ none))
          ⊎ ((n : Node V) × (d : Date) × (find dec k m.nodes ≡ some n)
              × (due dec k m.timeouts ≡ some d)
              × (a k ≡ some (n.value, d)))
    key_cases k =
        elim (Linked-cases (find dec k m.nodes) (due dec k m.timeouts) (r.is_linked.linked k)) [
          | inl (e, f) ↦ inl (e, f, sym (r.same k) ∙ ap₂ value_until e f)
          | inr (n, d, e, f, _) ↦ inr (n, d, e, f, sym (r.same k) ∙ ap₂ value_until e f)
        ]

    insert-Matches :
        (k : K) (v : V) (d : Date)
        → Matches dec (apply (insert_call k v d) m) (spec (insert_call k v d) a)
    unfolding apply spec
    insert-Matches k v d = elim (key_cases k) [
      | inl (e, f, g) ↦
          rw (e, insert)
            (rw (g, spec)
              (link-Represents dec k (record { value = v; timeout = d; timeout_it = none }) d m a r
                f))
      | inr (n, d', e, f, g) ↦ rw (e, insert) (rw (g, spec) refl)
    ]

    access-Matches :
        (k : K) (d : Date) → Matches dec (apply (access_call k d) m) (spec (access_call k d) a)
    unfolding apply spec
    access-Matches k d = elim (key_cases k) [
      | inl (e, f, g) ↦
          rw (e, access)
            (rw (g, spec)
              (link-Represents dec k (record { value = default; timeout = d; timeout_it = none }) d
                m a r f))
      | inr (n, d', e, f, g) ↦ rw (e, access) (rw (g, spec) (relink-Matches dec k n d m a r e))
    ]

    update-Matches :
        (k : K) (v : V) → Matches dec (apply (update_call k v) m) (spec (update_call k v) a)
    unfolding apply spec
    update-Matches k v = elim (key_cases k) [
      | inl (e, f, g) ↦ rw (e, update) (rw (g, spec) refl)
      | inr (n, d, e, f, g) ↦
          rw (e, update) (rw (g, spec) (revalue-Represents dec k n v m a d r e f))
    ]

    update_timeout-Matches :
        (k : K) (d : Date)
        → Matches dec (apply (update_timeout_call k d) m) (spec (update_timeout_call k d) a)
    unfolding apply spec
    update_timeout-Matches k d = elim (key_cases k) [
      | inl (e, f, g) ↦ rw (e, update_timeout) (rw (g, spec) refl)
      | inr (n, d', e, f, g) ↦
          rw (e, update_timeout) (rw (g, spec) (relink-Matches dec k n d m a r e))
    ]

    erase-Matches : (k : K) → Matches dec (apply (erase_call k) m) (spec (erase_call k) a)
    unfolding apply spec
    erase-Matches k = elim (key_cases k) [
      | inl (e, f, g) ↦
          rw (e, erase)
            (Represents-cong dec m a (write dec k none a) r (λ j. sym (write_absent dec k a j g)))
      | inr (n, d', e, f, g) ↦
          rw (e, erase)
            (drop_flag dec true (unlink dec k n m) (ok (write dec k none a))
              (unlink-Matches dec k n m a r e))
    ]

    clear-Matches : Matches dec (apply clear_call m) (spec clear_call a)
    unfolding apply spec clear find due
    clear-Matches = record {
      is_linked = record { linked = λ k. tt; sorted = tt; unique = tt; early = refl };
      same = λ k. refl;
    }

    -- Each call does what it should: on a map that stands for a function, it throws what the call
    -- should throw, or it leaves a map that stands for the function that it should leave.
    pub apply-Matches : (c : PlainCall K V) → Matches dec (apply c m) (spec c a)
    unfolding apply spec
    apply-Matches (insert_call k v d) = insert-Matches k v d
    apply-Matches (update_call k v) = update-Matches k v
    apply-Matches (update_timeout_call k d) = update_timeout-Matches k d
    apply-Matches (access_call k d) = access-Matches k d
    apply-Matches (erase_call k) = erase-Matches k
    apply-Matches (expire_call now) = expire-Matches dec now m a r
    apply-Matches clear_call = clear-Matches

  -- A history of calls; a call that throws leaves the map as it was.
  unfoldable pub run : List (PlainCall K V) → TimeoutMap K V → TimeoutMap K V
  unfolding apply
  run [] m = m
  run (c ∷ cs) m = run cs (or_else m (apply c m))

  unfoldable pub run_spec : List (PlainCall K V) → Abstract K V → Abstract K V
  unfolding spec
  run_spec [] a = a
  run_spec (c ∷ cs) a = run_spec cs (or_else a (spec c a))

  pub or_else-Represents :
      (m : TimeoutMap K V) (a : Abstract K V) (x : Result (TimeoutMap K V))
      (y : Result (Abstract K V))
      → Represents dec m a
      → Matches dec x y
      → Represents dec (or_else m x) (or_else a y)
  or_else-Represents m a (ok x) (ok y) r h = h
  or_else-Represents m a (err x) (err y) r h = r
  or_else-Represents m a (ok x) (err y) r h = absurd h
  or_else-Represents m a (err x) (ok y) r h = absurd h

  run-Represents :
      (cs : List (PlainCall K V)) (m : TimeoutMap K V) (a : Abstract K V)
      → Represents dec m a
      → Represents dec (run cs m) (run_spec cs a)
  unfolding run run_spec
  run-Represents [] m a r = r
  run-Represents (c ∷ cs) m a r =
      run-Represents cs (or_else m (apply c m)) (or_else a (spec c a))
        (or_else-Represents m a (apply c m) (spec c a) r (apply-Matches m a r c))

  pub new_map-Represents : (t : Option ℕ) → Represents {K = K} {V = V} dec (new_map t) (λ k. none)
  unfolding new_map find due
  new_map-Represents t = record {
    is_linked = record { linked = λ k. tt; sorted = tt; unique = tt; early = refl };
    same = λ k. refl;
  }

  -- After any history of calls on a new map, its nodes and deadlines stand for the function from keys
  -- to values with deadlines that the history should leave; the deadlines are in order, one for each
  -- node and at most one for each key, and `earliest` is not after the first of them.
  pub history-Represents :
      (t : Option ℕ) (cs : List (PlainCall K V))
      → Represents dec (run cs (new_map t)) (run_spec cs (λ k. none))
  history-Represents t cs = run-Represents cs (new_map t) (λ k. none) (new_map-Represents t)

  abbrev pub is_some : Option (V × Date) → Bool
  is_some none = false
  is_some (some x) = true

  abbrev pub value_or : Option (V × Date) → V
  value_or none = default
  value_or (some x) = x.0

  -- What `count` and `get` answer after any history of calls on a new map is what the history
  -- should leave for the key: whether it is there, and its value or the default one.
  pub history-get :
      (t : Option ℕ) (cs : List (PlainCall K V)) (k : K)
      → (count dec k (run cs (new_map t)) ≡ is_some (run_spec cs (λ j. none) k))
        × (get dec default k (run cs (new_map t)) ≡ value_or (run_spec cs (λ j. none) k))
  unfolding count get
  history-get t cs k =
      elim (key_cases (run cs (new_map t)) (run_spec cs (λ j. none)) (history-Represents t cs) k) [
        | inl (e, f, g) ↦ rw (e, g, count, get) (refl, refl)
        | inr (n, d, e, f, g) ↦ rw (e, g, count, get) (refl, refl)
      ]
