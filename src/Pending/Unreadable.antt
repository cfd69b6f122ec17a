-- ===== src/Pending/Unreadable.antt =====
-- `initFromStore` of service/pending_list.h on a store with entries that cannot be read.
use mathlib.Core.Logic.{ite, if_pos, if_neg}
use soa.Prelude.{
  ◌≡◌, refl, sym, ap, subst, ◌∙◌, Bool, true, false, inl, inr, ◌||◌, Option, none, some,
  Option-cases, List, [], ◌∷◌, if◌then◌else◌, arith,
}
use soa.Timeouts.{Date, TimeoutMap}
use soa.Timeouts.Ops.{clear}
use soa.Pending.{
  Text, Persistence, PendingList, decode, on_entry, scan_entries, delete_all, init_from_store,
}
use soa.Pending.Agreement.{text_eq, lookup, Distinct, IsFaithful}

unfoldable contains : Text → List Text → Bool
unfolding text_eq
contains u [] = false
contains u (t ∷ ts) = ite (text_eq t u) true (contains u ts)

abbrev is_none : {A : Type 0} → Option A → Bool
is_none none = true
is_none (some x) = false

module _ {K V Store : Type 0} (dec : Discrete K) (ps : Persistence K V Store) where
  -- The key has an entry whose key or value stands for nothing.
  abbrev pub unreadable : Text → Option Text → Bool
  unreadable t none = false
  unreadable t (some x) = is_none (decode dec ps (t, x))

  module _ (laws : IsFaithful ps) where
    lookup-delete_all :
        (u : Text) (ts : List Text) (s : Store)
        → lookup u (ps.entries (delete_all dec ps ts s))
          ≡ (if contains u ts then none else lookup u (ps.entries s))
    unfolding contains
    lookup-delete_all u [] s = refl
    lookup-delete_all u (t ∷ ts) s =
        lookup-delete_all u ts (ps.delete t s)
        ∙ ap (λ w. if contains u ts then none else w) (laws.lookup-delete t u s)
        ∙ either u t (contains u ts) (lookup u (ps.entries s))
      where
        either :
            (u t : Text) (b : Bool) (o : Option Text)
            → (if b then none else ite (text_eq t u) none o)
              ≡ (if ite (text_eq t u) true b then none else o)
        either u t true o = ground arith
        either u t false o = ground arith

  unreadable-first :
      (u t x : Text) (es : List (Text × Text))
      → unreadable u (lookup u ((t, x) ∷ es))
        ≡ ite (text_eq t u) (is_none (decode dec ps (t, x))) (unreadable u (lookup u es))
  unfolding lookup
  unreadable-first u t x es = elim (text_eq t u) [
    | yes same ↦
        ap (unreadable u) (if_pos (text_eq t u) same (some x) (lookup u es))
        ∙ ap (λ w. is_none (decode dec ps (w, x))) (sym same)
        ∙ sym (
            if_pos (text_eq t u) same (is_none (decode dec ps (t, x))) (unreadable u (lookup u es)))
    | no other ↦
        ap (unreadable u) (if_neg (text_eq t u) other (some x) (lookup u es))
        ∙ sym (
            if_neg (text_eq t u) other (is_none (decode dec ps (t, x)))
              (unreadable u (lookup u es)))
  ]

  -- The key of the first entry is not among the others.
  rest-readable :
      (u t : Text) (es : List (Text × Text))
      → lookup t es ≡ none
      → t ≡ u
      → unreadable u (lookup u es) ≡ false
  rest-readable u t es gone same = ap (unreadable u) (subst (λ w. lookup w es ≡ none) same gone)

  push :
      (u t : Text) (n p c : Bool)
      → (t ≡ u → p ≡ false)
      → n ≡ true
      → (p || ite (text_eq t u) true c) ≡ (ite (text_eq t u) n p || c)
  push u t n p c h e = elim (text_eq t u) [
    | yes same ↦
        rw (if_pos (text_eq t u) same true c, if_pos (text_eq t u) same n p, h same, e) refl
    | no other ↦ rw (if_neg (text_eq t u) other true c, if_neg (text_eq t u) other n p) refl
  ]

  pass :
      (u t : Text) (n p c : Bool)
      → (t ≡ u → p ≡ false)
      → n ≡ false
      → (p || c) ≡ (ite (text_eq t u) n p || c)
  pass u t n p c h e = elim (text_eq t u) [
    | yes same ↦ rw (if_pos (text_eq t u) same n p, h same, e) refl
    | no other ↦ rw (if_neg (text_eq t u) other n p) refl
  ]

  module _ (accept_entry : K → V → Date → Option (K × V × Date)) (timeout : Date) where
    contains-scan_entries :
        (u : Text) (es : List (Text × Text)) (m : TimeoutMap K V) (bad : List Text)
        → Distinct es
        → contains u (scan_entries dec ps accept_entry timeout es m bad).1
          ≡ (unreadable u (lookup u es) || contains u bad)
    unfolding scan_entries lookup contains
    contains-scan_entries u [] m bad d = refl
    contains-scan_entries u ((t, x) ∷ es) m bad d =
        let n = is_none (decode dec ps (t, x)) in
        let p = unreadable u (lookup u es) in
        let first = ap (λ b. b || contains u bad) (sym (unreadable-first u t x es)) in
        elim (Option-cases (decode dec ps (t, x))) [
          | inl e ↦
              rw (e, scan_entries) (contains-scan_entries u es m (t ∷ bad) d.1)
              ∙ push u t n p (contains u bad) (rest-readable u t es d.0) (ap is_none e)
              ∙ first
          | inr (kv, e) ↦
              rw (e, scan_entries)
                (contains-scan_entries u es (on_entry dec ps accept_entry timeout kv m) bad d.1)
              ∙ pass u t n p (contains u bad) (rest-readable u t es d.0) (ap is_none e)
              ∙ first
        ]

    or_false : (b : Bool) → (b || false) ≡ b
    or_false true = refl
    or_false false = refl

    -- initFromStore deletes those entries of the store whose key or value stands for nothing, whatever
    -- acceptEntry answers for the others, and leaves all other entries as they are.
    pub init_from_store-deletes :
        (laws : IsFaithful ps) (p : PendingList K V Store) (t : Text)
        → lookup t (ps.entries (init_from_store dec ps accept_entry timeout p).store) ≡ (
            if unreadable t (lookup t (ps.entries p.store))
            then none
            else lookup t (ps.entries p.store))
    unfolding init_from_store contains
    init_from_store-deletes laws p t =
        let old = lookup t (ps.entries p.store) in
        lookup-delete_all laws t
          (scan_entries dec ps accept_entry timeout (ps.entries p.store) (clear dec p.timeouts)
            []).1
          p.store
        ∙ ap (λ b. if b then none else old)
            (contains-scan_entries t (ps.entries p.store) (clear dec p.timeouts) []
                (laws.distinct p.store)
              ∙ or_false (unreadable t old))
