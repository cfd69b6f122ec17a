-- ===== src/Timeouts/Visits.antt =====
-- service/timeout_map.h: `expire` with a callback calls it for the entries that have expired, each once
-- and in the order of their deadlines.
use mathlib.Core.Logic.{if_pos}
use soa.Prelude.{
  ℕ, zero, suc, ◌<◌, ◌≡◌, inl, inr, refl, sym, ap, subst, ◌∙◌, true, false, Bool-cases, Option,
  none, some, List, [], ◌∷◌, length, ok, err, arith,
}
use soa.Timeouts.{Date, date_le, Node, TimeoutMap, find, due}
use soa.Timeouts.Maps.{Unique}
use soa.Timeouts.Ops.{Result}
use soa.Timeouts.Refinement.{Abstract, Represents, write}
use soa.Timeouts.Expiry.{first_node}
use soa.Timeouts.Callbacks.{Answer, first_key, next_key, renew, expire_calling, expire_with}
use soa.Timeouts.Renewal.{renewed, renewed_timeouts, renew-Represents}
use soa.Timeouts.Expired.{expired, Placed, IsForward, next_key-first, renewed_timeouts-After}

module _ {K V S : Type 0} (dec : Discrete K) (callback : K → V → S → Answer V S) where
  -- The callback on the values of the keys of some entries, one after another: what it leaves of its state,
  -- and of the function that a map stands for.
  unfoldable pub call_all : List (Date × K) → S → Abstract K V → S × Abstract K V
  call_all [] s a = (s, a)
  call_all ((d, k) ∷ ts) s a = elim (a k) [
    | none ↦ call_all ts s a
    | some x ↦ let r = callback k x.0 s in call_all ts r.state (write dec k (renewed dec r) a)
  ]

module _ {K V S : Type 0} (dec : Discrete K) (callback : K → V → S → Answer V S) (now : Date) where
  abbrev pub Comes : Result (S × TimeoutMap K V) → S × Abstract K V → Type 0
  Comes (ok (s, m)) (t, a) = (s ≡ t) × Represents dec m a
  Comes (err e) x = ⊥

  late_round :
      (fuel : ℕ) (j : K) (s : S) (m : TimeoutMap K V) (e : Date)
      → due dec j m.timeouts ≡ some e
      → date_le e now ≡ false
      → expire_calling dec callback now (suc fuel) (some j) s m ≡ ok (s, m)
  unfolding expire_calling
  late_round fuel j s m e at_j late = rw (at_j, expire_calling, late) refl

  early_round :
      (fuel : ℕ) (k : K) (s : S) (m m' : TimeoutMap K V) (d : Date) (n : Node V)
      → due dec k m.timeouts ≡ some d
      → date_le d now ≡ true
      → find dec k m.nodes ≡ some n
      → renew dec k n (callback k n.value s) m ≡ ok m'
      → expire_calling dec callback now (suc fuel) (some k) s m
        ≡ expire_calling dec callback now fuel
            (next_key dec k m.timeouts)
            (callback k n.value s).state
            m'
  unfolding expire_calling
  early_round fuel k s m m' d n at_k early there done =
      rw (at_k, expire_calling, early, there, done) refl

  call_all_first :
      (d : Date) (k : K) (ts : List (Date × K)) (s : S) (a : Abstract K V) (v : V)
      → a k ≡ some (v, d)
      → call_all dec callback ((d, k) ∷ ts) s a
        ≡ call_all dec callback ts
            (callback k v s).state
            (write dec k (renewed dec (callback k v s)) a)
  unfolding call_all
  call_all_first d k ts s a v e = rw (e, call_all) refl

  module _ (forward : (k : K) (v : V) (s : S) → IsForward dec now (callback k v s)) where
    abbrev Goes : ℕ → Option K → S → TimeoutMap K V → Abstract K V → Type 0
    Goes fuel it s m a =
        Comes (expire_calling dec callback now fuel it s m)
          (call_all dec callback (expired now m.timeouts) s a)

    -- The first entry has expired.
    visit :
        (fuel : ℕ) (d : Date) (k : K) (ts : List (Date × K)) (s : S) (m : TimeoutMap K V)
        (a : Abstract K V)
        → Represents dec m a
        → m.timeouts ≡ (d, k) ∷ ts
        → date_le d now ≡ true
        → ((it : Option K) (s : S) (m' : TimeoutMap K V) (b : Abstract K V)
            → Represents dec m' b
            → Placed dec now it m'.timeouts
            → expired now m'.timeouts ≡ expired now ts
            → Goes fuel it s m' b)
        → Comes
            (expire_calling dec callback now (suc fuel) (some k) s m)
            (call_all dec callback ((d, k) ∷ expired now ts) s a)
    unfolding due
    visit fuel d k ts s m a r e early rest =
        let (n, there, at_a) = first_node dec d k ts m a r e in
        let at_k : due dec k m.timeouts ≡ some d =
          ap (due dec k) e ∙ if_pos (dec k k) refl (some d) (due dec k ts) in
        let answer = callback k n.value s in
        let (m', done, (stands, times)) = renew-Represents dec k n d answer m a r there at_k in
        let unique = subst (Unique dec) e r.is_linked.unique in
        let (same, placed) =
          renewed_timeouts-After dec now d k ts answer unique (forward k n.value s) in
        let times' = times ∙ ap (renewed_timeouts dec k answer) e in
        let next = ap (next_key dec k) e ∙ next_key-first dec now d k ts in
        let went =
          rest (next_key dec k m.timeouts) answer.state m' _ stands
            (subst (λ it. Placed dec now it m'.timeouts) (sym next)
              (subst (Placed dec now (first_key ts)) (sym times') placed))
            (ap (expired now) times' ∙ same) in
        subst (λ x. Comes x (call_all dec callback ((d, k) ∷ expired now ts) s a))
          (sym (early_round fuel k s m m' d n at_k early there done))
          (subst
            (Comes
              (expire_calling dec callback now fuel (next_key dec k m.timeouts) answer.state m'))
            (ap (λ l. call_all dec callback l answer.state (write dec k (renewed dec answer) a))
                (ap (expired now) times' ∙ same)
              ∙ sym (call_all_first d k (expired now ts) s a n.value at_a))
            went)

    abbrev Rest : ℕ → Type 0
    Rest fuel =
        (it : Option K) (s : S) (m : TimeoutMap K V) (a : Abstract K V)
        → Represents dec m a
        → Placed dec now it m.timeouts
        → length (expired now m.timeouts) < fuel
        → Goes fuel it s m a

    from_first :
        (fuel : ℕ) (s : S) (m : TimeoutMap K V) (a : Abstract K V) (ts : List (Date × K))
        → Represents dec m a
        → length (expired now m.timeouts) < suc fuel
        → Rest fuel
        → m.timeouts ≡ ts
        → Comes
            (expire_calling dec callback now (suc fuel) (first_key ts) s m)
            (call_all dec callback (expired now ts) s a)
    unfolding expire_calling call_all due
    from_first fuel s m a [] r h rest e = (refl, r)
    from_first fuel s m a ((d, k) ∷ ts) r h rest e = elim (Bool-cases (date_le d now)) [
      | inl early ↦
          let all : expired now ((d, k) ∷ ts) ≡ (d, k) ∷ expired now ts = rw early refl in
          let counted = ap length (ap (expired now) e ∙ all) in
          subst
            (λ l.
              Comes (expire_calling dec callback now (suc fuel) (some k) s m)
                (call_all dec callback l s a))
            (sym all)
            (visit fuel d k ts s m a r e early (λ it t m' b stands placed same.
              let shorter = ap length same in
              rest it t m' b stands placed (omega (arith, h, counted, shorter))))
      | inr late ↦
          let at_k : due dec k m.timeouts ≡ some d =
            ap (due dec k) e ∙ if_pos (dec k k) refl (some d) (due dec k ts) in
          let nothing : expired now ((d, k) ∷ ts) ≡ [] = rw late refl in
          subst
            (λ l.
              Comes (expire_calling dec callback now (suc fuel) (some k) s m)
                (call_all dec callback l s a))
            (sym nothing)
            (subst (λ x. Comes x (s, a)) (sym (late_round fuel k s m d at_k late)) (refl, r))
    ]

    expire_calling-Comes : (fuel : ℕ) → Rest fuel
    unfolding expire_calling call_all
    expire_calling-Comes zero it s m a r p h = absurd (omega (arith, h))
    expire_calling-Comes (suc fuel) none s m a r (inr (nothing, stops)) h = rw nothing (refl, r)
    expire_calling-Comes (suc fuel) (some j) s m a r (inr (nothing, (e, at_j, late))) h =
        rw (nothing, late_round fuel j s m e at_j late) (refl, r)
    expire_calling-Comes (suc fuel) it s m a r (inl first) h =
        subst (λ i. Goes (suc fuel) i s m a) (sym first)
          (from_first fuel s m a m.timeouts r h (expire_calling-Comes fuel) refl)

    -- Where the callback answers with no date or with one that has not passed, and there is a unit of fuel
    -- more than there are entries that have expired, expire calls it for these entries, each once and in
    -- the order of their deadlines, with its state and the value of the entry; it ends without an
    -- exception, removes the entries for which there was no date, gives the others the value and the date
    -- that they got, and leaves everything else as it was.
    pub expire_with-Comes :
        (fuel : ℕ) (s : S) (m : TimeoutMap K V) (a : Abstract K V)
        → Represents dec m a
        → length (expired now m.timeouts) < fuel
        → Comes
            (expire_with dec callback now fuel s m)
            (call_all dec callback (expired now m.timeouts) s a)
    unfolding expire_with
    expire_with-Comes fuel s m a r h =
        expire_calling-Comes fuel (first_key m.timeouts) s m a r (inl refl) h
