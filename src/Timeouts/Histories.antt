-- ===== src/Timeouts/Histories.antt =====
-- Histories of calls on a timeout map, with `operator []` and `expire` with a callback among them.
use soa.Prelude.{
  ℕ, suc, ◌≡◌, refl, ◌∙◌, Option, none, some, Option-cases, List, [], ◌∷◌, All, length, ok, err,
  ◌>>=◌, inl, inr,
}
use soa.Timeouts.{Date, plus_seconds, no_default_timeout, TimeoutMap, new_map}
use soa.Timeouts.Ops.{Result, index}
use soa.Timeouts.Refinement.{Abstract, Represents, Matches, write}
use soa.Timeouts.Callbacks.{Answer, expire_with}
use soa.Timeouts.Expired.{expired, expired-length, IsForward}
use soa.Timeouts.Visits.{call_all, Comes, expire_with-Comes}
use soa.Timeouts.Index.{index_spec, index_with_default}
use soa.Timeouts.Defaults.{
  HasDefault, apply-HasDefault, index-default_timeout, expire_with-HasDefault,
}
use soa.Timeouts.Calls.{
  PlainCall, apply, spec, apply-Matches, or_else, or_else-Represents, key_cases, new_map-Represents,
}

pub data Call (K V U : Type 0) : Type 0 where
  plain_call : PlainCall K V → Call K V U
  -- `operator []`, at a date
  index_call : K → Date → Call K V U
  -- `expire` with a callback, whose state is the given one at first, at a date
  visit_call : (K → V → U → Answer V U) → U → Date → Call K V U

module _ {K V : Type 0} (dec : Discrete K) (default : V) where
  abbrev pub apply_index : K → Date → TimeoutMap K V → Result (TimeoutMap K V)
  apply_index k now m = (index dec default now k m).0 >>= λ _. ok (index dec default now k m).1

  abbrev pub spec_index : Option ℕ → K → Date → Abstract K V → Result (Abstract K V)
  spec_index t k now a = elim (a k) [
    | some x ↦ ok a
    | none ↦ elim t [
      | none ↦ err no_default_timeout
      | some n ↦ ok (write dec k (some (default, plus_seconds now n)) a)
    ]
  ]

  index-Matches :
      (k : K) (now : Date) (m : TimeoutMap K V) (a : Abstract K V) (t : Option ℕ)
      → Represents dec m a
      → m.default_timeout ≡ t
      → Matches dec (apply_index k now m) (spec_index t k now a)
  unfolding index
  index-Matches k now m a none r e = elim (key_cases dec default m a r k) [
    | inl (f, g, h) ↦ rw (f, e, index) (rw (h, Matches, spec_index) refl)
    | inr (n, d, f, g, h) ↦ rw (f, index) (rw (h, Matches, spec_index) r)
  ]
  index-Matches k now m a (some t) r e =
      let (done, stands) = index_with_default dec default now k m a t r e in
      elim (key_cases dec default m a r k) [
        | inl (f, g, h) ↦ rw (done) (rw (h, Matches, spec_index) (rw (h, index_spec) at stands))
        | inr (n, d, f, g, h) ↦ rw (f, index) (rw (h, Matches, spec_index) r)
      ]

module _ {K V : Type 0} (dec : Discrete K) (default : V) where
  or_else-default :
      (m : TimeoutMap K V) (x : Result (TimeoutMap K V))
      → HasDefault m.default_timeout x
      → (or_else dec default m x).default_timeout ≡ m.default_timeout
  or_else-default m (ok y) h = h
  or_else-default m (err e) h = refl

module _ {K V U : Type 0} (dec : Discrete K) (default : V) where
  unfoldable pub apply_call : Call K V U → TimeoutMap K V → Result (TimeoutMap K V)
  unfolding apply index expire_with
  apply_call (plain_call c) m = apply dec default c m
  apply_call (index_call k now) m = apply_index dec default k now m
  apply_call (visit_call callback u now) m =
      expire_with dec callback now (suc (length m.timeouts)) u m >>= λ r. ok r.1

  -- What a call should do, where the map has a default timeout, or none, and its deadlines are in an order.
  unfoldable pub spec_call :
      Option ℕ → List (Date × K) → Call K V U → Abstract K V → Result (Abstract K V)
  unfolding spec call_all
  spec_call t ts (plain_call c) a = spec dec default c a
  spec_call t ts (index_call k now) a = spec_index dec default t k now a
  spec_call t ts (visit_call callback u now) a = ok (call_all dec callback (expired now ts) u a).1

  -- A callback answers with no date or with one that has not passed.
  abbrev pub IsForwardVisit : Call K V U → Type 0
  IsForwardVisit (plain_call c) = Unit
  IsForwardVisit (index_call k now) = Unit
  IsForwardVisit (visit_call callback u now) =
      (k : K) (v : V) (w : U) → IsForward dec now (callback k v w)

  visit-Matches :
      (callback : K → V → U → Answer V U) (now : Date) (x : Result (U × TimeoutMap K V))
      (y : U × Abstract K V)
      → Comes dec callback now x y
      → Matches dec (x >>= λ r. ok r.1) (ok y.1)
  visit-Matches callback now (ok (u, m)) (w, a) h = h.1
  visit-Matches callback now (err e) y h = h

  -- On a map that stands for a function, every call, operator [] and expire with a callback included,
  -- throws what it should throw, or leaves a map that stands for the function that it should leave, where
  -- callbacks answer with no date or with one that has not passed. With a callback that function is what
  -- comes of calling it for the expired entries in the order of the map.
  pub call-Matches :
      (c : Call K V U) (m : TimeoutMap K V) (a : Abstract K V)
      → Represents dec m a
      → IsForwardVisit c
      → Matches dec (apply_call c m) (spec_call m.default_timeout m.timeouts c a)
  unfolding apply_call spec_call
  call-Matches (plain_call c) m a r f = apply-Matches dec default m a r c
  call-Matches (index_call k now) m a r f =
      index-Matches dec default k now m a m.default_timeout r refl
  call-Matches (visit_call callback u now) m a r f = visit-Matches callback now _ _ (
      expire_with-Comes dec callback now f (suc (length m.timeouts)) u m a r
        (expired-length now m.timeouts))

  -- What is left of a map by a call, by `operator []` also where it throws.
  abbrev pub left : Call K V U → TimeoutMap K V → TimeoutMap K V
  left (plain_call c) m = or_else dec default m (apply_call (plain_call c) m)
  left (index_call k now) m = (index dec default now k m).1
  left (visit_call callback u now) m =
      or_else dec default m (apply_call (visit_call callback u now) m)

  unfoldable pub run_history : List (Call K V U) → TimeoutMap K V → TimeoutMap K V
  unfolding apply_call index
  run_history [] m = m
  run_history (c ∷ cs) m = run_history cs (left c m)

  -- What a history should leave of the function; of the maps only the order of the deadlines is read.
  unfoldable pub spec_history :
      Option ℕ → List (Call K V U) → TimeoutMap K V → Abstract K V → Abstract K V
  unfolding spec_call apply_call index
  spec_history t [] m a = a
  spec_history t (c ∷ cs) m a =
      spec_history t cs (left c m) (or_else dec default a (spec_call t m.timeouts c a))

  -- There is a default timeout where `operator []` is called.
  abbrev pub HasTimeout : Option ℕ → Call K V U → Type 0
  HasTimeout none (index_call k now) = ⊥
  HasTimeout t c = Unit

  abbrev pub IsCovered : Option ℕ → Call K V U → Type 0
  IsCovered t c = HasTimeout t c × IsForwardVisit c

  left-default_timeout :
      (c : Call K V U) (m : TimeoutMap K V) → (left c m).default_timeout ≡ m.default_timeout
  unfolding apply_call
  left-default_timeout (plain_call c) m =
      or_else-default dec default m (apply dec default c m) (apply-HasDefault dec default c m)
  left-default_timeout (index_call k now) m = index-default_timeout dec default now k m
  left-default_timeout (visit_call callback u now) m =
      or_else-default dec default m _
        (expire_with-HasDefault dec callback now (suc (length m.timeouts)) u m)

  left-Represents :
      (t : Option ℕ) (c : Call K V U) (m : TimeoutMap K V) (a : Abstract K V)
      → IsCovered t c
      → m.default_timeout ≡ t
      → Represents dec m a
      → Represents dec (left c m) (or_else dec default a (spec_call t m.timeouts c a))
  unfolding apply_call spec_call
  left-Represents t (plain_call c) m a f e r =
      or_else-Represents dec default m a (apply dec default c m) (spec dec default c a) r
        (apply-Matches dec default m a r c)
  left-Represents none (index_call k now) m a f e r = absurd f.0
  left-Represents (some t) (index_call k now) m a f e r =
      let (done, stands) = index_with_default dec default now k m a t r e in
      elim (Option-cases (a k)) [
        | inl h ↦ rw (h, spec_index, or_else) (rw (h, index_spec) at stands)
        | inr (x, h) ↦ rw (h, spec_index, or_else) (rw (h, index_spec) at stands)
      ]
  left-Represents t (visit_call callback u now) m a f e r =
      or_else-Represents dec default m a _ _ r (call-Matches (visit_call callback u now) m a r f.1)

  run-Represents :
      (t : Option ℕ) (cs : List (Call K V U)) (m : TimeoutMap K V) (a : Abstract K V)
      → All (IsCovered t) cs
      → m.default_timeout ≡ t
      → Represents dec m a
      → Represents dec (run_history cs m) (spec_history t cs m a)
  unfolding run_history spec_history
  run-Represents t [] m a f e r = r
  run-Represents t (c ∷ cs) m a f e r =
      run-Represents t cs (left c m) (or_else dec default a (spec_call t m.timeouts c a)) f.1
        (left-default_timeout c m ∙ e) (left-Represents t c m a f.0 e r)

  -- After any history of calls on a new map, operator [] and expire with a callback included, its nodes
  -- and deadlines stand for the function from keys to values with deadlines that the history should leave;
  -- the deadlines are in order, one for each node and at most one for each key, and `earliest` is not after
  -- the first of them. There has to be a default timeout where operator [] is called, and callbacks have to
  -- answer with no date or with one that has not passed.
  pub run_history-Represents :
      (t : Option ℕ) (cs : List (Call K V U))
      → All (IsCovered t) cs
      → Represents dec (run_history cs (new_map t)) (spec_history t cs (new_map t) (λ k. none))
  unfolding new_map
  run_history-Represents t cs f =
      run-Represents t cs (new_map t) (λ k. none) f refl (new_map-Represents dec default t)
