-- ===== src/Pending/Restart.antt =====
-- `initFromStore` of service/pending_list.h on the store that another list has left.
use mathlib.Core.Logic.{if_pos, if_neg}
use soa.Prelude.{
  ◌≡◌, ◌⊎◌, inl, inr, refl, sym, ap, subst, ◌∙◌, Option, none, some, Option-cases, List, [], ◌∷◌,
  ok,
}
use soa.Timeouts.{Date, TimeoutMap, find, due}
use soa.Timeouts.Ops.{insert, clear}
use soa.Timeouts.Refinement.{Abstract, Represents, Matches, view, write}
use soa.Timeouts.Expiry.{Represents-cong}
use soa.Timeouts.Calls.{insert_call, apply, spec, apply-Matches}
use soa.Pending.{Text, Persistence, PendingList, decode, on_entry, scan_entries, init_from_store}
use soa.Pending.Agreement.{
  text_eq, lookup, Distinct, IsFaithful, Agrees, some-inj, stringify_key-inj, written,
}
use soa.Pending.Calls.{IsConsistent, consistent, matched-ok}

module _ {K V : Type 0} where
  -- No `acceptEntry`.
  abbrev pub accept_all : K → V → Date → Option (K × V × Date)
  accept_all k v d = some (k, v, d)

-- A value with another deadline.
abbrev pub with_deadline : {V : Type 0} → Date → Option (V × Date) → Option (V × Date)
with_deadline d none = none
with_deadline d (some y) = some (y.0, d)

module _ {K V Store : Type 0} (dec : Discrete K) (ps : Persistence K V Store) (timeout : Date) where
  -- The entries that a scan has yet to read: for each there is a key, which the map lacks, and a value.
  abbrev Readable : List (Text × Text) → Abstract K V → Type 0
  Readable es a =
      (t : Text)
      → (lookup t es ≡ none)
        ⊎ ((k : K) × (v : V) × (t ≡ ps.stringify_key k)
            × (lookup t es ≡ some (ps.stringify_value v))
            × (a k ≡ none))

  abbrev pub dated : Option V → Option (V × Date)
  dated none = none
  dated (some v) = some (v, timeout)

  abbrev fill : Option (V × Date) → Option Text → Option (V × Date)
  fill x none = x
  fill x (some t) = dated (ps.unstringify_value t)

  -- The function that a scan should leave.
  abbrev filled : List (Text × Text) → Abstract K V → Abstract K V
  filled es a k = fill (a k) (lookup (ps.stringify_key k) es)

  module _ (laws : IsFaithful ps) where
    lookup-first : (t x : Text) (es : List (Text × Text)) → lookup t ((t, x) ∷ es) ≡ some x
    unfolding lookup
    lookup-first t x es = if_pos (text_eq t t) refl (some x) (lookup t es)

    lookup-rest :
        (t u x : Text) (es : List (Text × Text)) → ¬ (t ≡ u) → lookup u ((t, x) ∷ es) ≡ lookup u es
    unfolding lookup
    lookup-rest t u x es other = if_neg (text_eq t u) other (some x) (lookup u es)

    decode-some :
        (t x : Text) (k : K) (v : V)
        → t ≡ ps.stringify_key k
        → x ≡ ps.stringify_value v
        → decode dec ps (t, x) ≡ some (k, v)
    decode-some t x k v e f = rw (e, f) (rw (laws.key-again k, decode, laws.value-again v) refl)

    first-Readable :
        (t x : Text) (es : List (Text × Text)) (a : Abstract K V)
        → Readable ((t, x) ∷ es) a
        → (k : K) × (v : V) × (t ≡ ps.stringify_key k) × (x ≡ ps.stringify_value v) × (a k ≡ none)
    first-Readable t x es a h = elim (h t) [
      | inl e ↦ cc (e, lookup-first t x es)
      | inr (k, v, e, f, g) ↦
          (k, v, e, some-inj ps x (ps.stringify_value v) (sym (lookup-first t x es) ∙ f), g)
    ]

    rest-Readable :
        (t x : Text) (k : K) (y : V × Date) (es : List (Text × Text)) (a : Abstract K V)
        → lookup t es ≡ none
        → t ≡ ps.stringify_key k
        → Readable ((t, x) ∷ es) a
        → Readable es (write dec k (some y) a)
    rest-Readable t x k y es a gone e h u = elim (text_eq t u) [
      | yes same ↦ inl (subst (λ w. lookup w es ≡ none) same gone)
      | no other ↦ elim (h u) [
        | inl f ↦ inl (sym (lookup-rest t u x es other) ∙ f)
        | inr (j, v, f, g, absent) ↦ inr (
          j,
          v,
          f,
          sym (lookup-rest t u x es other) ∙ g,
          if_neg (dec k j) (λ same. other (e ∙ ap ps.stringify_key same ∙ sym f)) (some y) (a j)
              ∙ absent,
        )
      ]
    ]

    filled-rest :
        (t x : Text) (k : K) (v : V) (es : List (Text × Text)) (a : Abstract K V)
        → lookup t es ≡ none
        → t ≡ ps.stringify_key k
        → x ≡ ps.stringify_value v
        → (j : K) → filled es (write dec k (some (v, timeout)) a) j ≡ filled ((t, x) ∷ es) a j
    filled-rest t x k v es a gone e f j = elim (dec k j) [
      | yes same ↦
          let at_j : t ≡ ps.stringify_key j = e ∙ ap ps.stringify_key same in
          let gone_j = subst (λ w. lookup w es ≡ none) at_j gone in
          let first_j = subst (λ w. lookup w ((t, x) ∷ es) ≡ some x) at_j (lookup-first t x es) in
          let valued : dated (ps.unstringify_value x) ≡ some (v, timeout) =
            ap (λ w. dated (ps.unstringify_value w)) f ∙ ap dated (laws.value-again v) in
          ap (fill (write dec k (some (v, timeout)) a j)) gone_j
          ∙ if_pos (dec k j) same (some (v, timeout)) (a j)
          ∙ sym valued
          ∙ ap (fill (a j)) (sym first_j)
      | no other ↦
          let apart : ¬ (t ≡ ps.stringify_key j) =
            λ g. other (stringify_key-inj ps dec laws k j (sym e ∙ g)) in
          ap (λ w. fill w (lookup (ps.stringify_key j) es))
            (if_neg (dec k j) other (some (v, timeout)) (a j))
          ∙ ap (fill (a j)) (sym (lookup-rest t (ps.stringify_key j) x es apart))
    ]

    -- An entry is inserted.
    entered :
        (k : K) (v : V) (m : TimeoutMap K V) (a : Abstract K V)
        → Represents dec m a
        → a k ≡ none
        → Represents dec
            (on_entry dec ps accept_all timeout (k, v) m)
            (write dec k (some (v, timeout)) a)
    unfolding apply spec
    entered k v m a r absent =
        let wanted : spec dec v (insert_call k v timeout) a
            ≡ ok (write dec k (some (v, timeout)) a) =
          rw (absent, spec) refl in
        let (m', made, stands) =
          matched-ok dec (insert dec k v timeout m) (write dec k (some (v, timeout)) a) (
            subst (Matches dec (insert dec k v timeout m)) wanted
              (apply-Matches dec v m a r (insert_call k v timeout))) in
        rw (made) stands

    scan_entries-fills :
        (es : List (Text × Text)) (m : TimeoutMap K V) (a : Abstract K V) (bad : List Text)
        → Distinct es
        → Readable es a
        → Represents dec m a
        → (m' : TimeoutMap K V) × (scan_entries dec ps accept_all timeout es m bad ≡ (m', bad))
          × Represents dec m' (filled es a)
    unfolding scan_entries lookup
    scan_entries-fills [] m a bad d h r = (m, refl, r)
    scan_entries-fills ((t, x) ∷ es) m a bad d h r =
        let (k, v, e, f, absent) = first-Readable t x es a h in
        let n = on_entry dec ps accept_all timeout (k, v) m in
        let b = write dec k (some (v, timeout)) a in
        let (m', made, stands) =
          scan_entries-fills es n b bad d.1 (rest-Readable t x k (v, timeout) es a d.0 e h)
            (entered k v m a r absent) in
        (
          m',
          rw (decode-some t x k v e f, scan_entries) made,
          Represents-cong dec m' (filled es b) (filled ((t, x) ∷ es) a) stands
              (filled-rest t x k v es a d.0 e f),
        )

    Agrees-Readable :
        (s : Store) (a : Abstract K V) → Agrees ps s a → Readable (ps.entries s) (λ k. none)
    Agrees-Readable s a h t = elim (h.only t) [
      | inl e ↦ inl e
      | inr (k, e) ↦
          let at_k : lookup t (ps.entries s) ≡ written ps (a k) =
            ap (λ w. lookup w (ps.entries s)) e ∙ h.same k in
          elim (Option-cases (a k)) [
            | inl none_k ↦ inl (at_k ∙ ap (written ps) none_k)
            | inr (y, some_k) ↦ inr (k, y.0, e, at_k ∙ ap (written ps) some_k, refl)
          ]
    ]

    fill-written : (x : Option (V × Date)) → fill none (written ps x) ≡ with_deadline timeout x
    fill-written none = refl
    fill-written (some (v, d)) = ap dated (laws.value-again v)

    written-with_deadline :
        (x : Option (V × Date)) → written ps (with_deadline timeout x) ≡ written ps x
    written-with_deadline none = refl
    written-with_deadline (some y) = refl

    clear-Represents :
        (m : TimeoutMap K V) → Represents {K = K} {V = V} dec (clear dec m) (λ k. none)
    unfolding clear find due
    clear-Represents m = record {
      is_linked = record { linked = λ k. tt; sorted = tt; unique = tt; early = refl };
      same = λ k. refl;
    }

    filled-Agrees :
        (s : Store) (a : Abstract K V)
        → Agrees ps s a
        → (k : K) → filled (ps.entries s) (λ j. none) k ≡ with_deadline timeout (a k)
    filled-Agrees s a h k = ap (fill none) (h.same k) ∙ fill-written (a k)

    -- A list, whatever is in its map, that is given the store of a consistent list and no acceptEntry, gets
    -- the keys of that list with their values, each with the deadline that was given, and no other keys; the
    -- store is left as it was, and the new list is consistent.
    pub init_from_store-restores :
        (p q : PendingList K V Store)
        → IsConsistent dec ps p
        → q.store ≡ p.store
        → let r = init_from_store dec ps accept_all timeout q in
          ((k : K) → view dec r.timeouts k ≡ with_deadline timeout (view dec p.timeouts k))
          × (r.store ≡ p.store)
          × IsConsistent dec ps r
    unfolding init_from_store
    init_from_store-restores p q c e =
        let a = view dec p.timeouts in
        let agrees = subst (λ s. Agrees ps s a) (sym e) c.agrees in
        let (m, made, stands) =
          scan_entries-fills (ps.entries q.store) (clear dec q.timeouts) (λ k. none) []
            (laws.distinct q.store) (Agrees-Readable q.store a agrees)
            (clear-Represents q.timeouts) in
        let right =
          Represents-cong dec m (filled (ps.entries q.store) (λ j. none))
            (λ k. with_deadline timeout (a k)) stands (filled-Agrees q.store a agrees) in
        let kept : Agrees ps q.store (λ k. with_deadline timeout (a k)) = record {
          same = λ k. agrees.same k ∙ sym (written-with_deadline (a k));
          only = agrees.only;
        } in
        rw (made)
          (right.same, e, consistent dec ps m q.store (λ k. with_deadline timeout (a k)) right kept)
