-- ===== src/Timeouts/Maps.antt =====
-- Laws of the node map and of the multimap of deadlines.
use mathlib.Core.Logic.{ite, if_pos, if_neg}
use soa.Prelude.{
  ◌≡◌, refl, sym, ◌∙◌, true, false, Bool-cases, inl, inr, none, some, List, [], ◌∷◌, arith,
}
use soa.Timeouts.{
  Date, finite, infinite, date_lt, date_le, Node, insert_timeout, find, put, remove, erase_timeout,
  due,
}

module _ {K V : Type 0} (dec : Discrete K) where
  pub find-put :
      (k j : K) (n : Node V) (ns : List (K × Node V))
      → find dec j (put dec k n ns) ≡ ite (dec k j) (some n) (find dec j ns)
  unfolding find put
  find-put k j n [] = refl
  find-put k j n ((i, m) ∷ ns) = ground (arith, find-put k j n ns)

  pub find-remove :
      (k j : K) (ns : List (K × Node V))
      → find dec j (remove dec k ns) ≡ ite (dec k j) none (find dec j ns)
  unfolding find remove
  find-remove k j [] = ground arith
  find-remove k j ((i, m) ∷ ns) = ground (arith, find-remove k j ns)

module _ {K : Type 0} (dec : Discrete K) where
  pub due-erase_timeout :
      (k j : K) (ts : List (Date × K))
      → due dec j (erase_timeout dec k ts) ≡ ite (dec k j) none (due dec j ts)
  unfolding due erase_timeout
  due-erase_timeout k j [] = ground arith
  due-erase_timeout k j ((d, i) ∷ ts) = ground (arith, due-erase_timeout k j ts)

  -- Where the key has no deadline yet.
  pub due-insert_timeout :
      (d : Date) (k j : K) (ts : List (Date × K))
      → due dec k ts ≡ none
      → due dec j (insert_timeout d k ts) ≡ ite (dec k j) (some d) (due dec j ts)
  unfolding due insert_timeout
  due-insert_timeout d k j [] h = refl
  due-insert_timeout d k j ((e, i) ∷ ts) h = ground (arith, due-insert_timeout d k j ts)

module _ {K : Type 0} where
  -- No entry is before the date.
  abbrev pub Above : Date → List (Date × K) → Type 0
  Above d [] = Unit
  Above d ((e, k) ∷ ts) = (date_le d e ≡ true) × Above d ts

  abbrev pub Sorted : List (Date × K) → Type 0
  Sorted [] = Unit
  Sorted ((d, k) ∷ ts) = Above d ts × Sorted ts

pub date_le_trans : (a b c : Date) → date_le a b ≡ true → date_le b c ≡ true → date_le a c ≡ true
date_le_trans (finite a) (finite b) (finite c) h k = ground arith
date_le_trans (finite a) (finite b) infinite h k = refl
date_le_trans (finite a) infinite (finite c) h k = cc
date_le_trans (finite a) infinite infinite h k = refl
date_le_trans infinite (finite b) c h k = cc
date_le_trans infinite infinite c h k = k

pub date_le_of_lt : (a b : Date) → date_lt a b ≡ true → date_le a b ≡ true
date_le_of_lt (finite a) (finite b) h = ground arith
date_le_of_lt (finite a) infinite h = refl
date_le_of_lt infinite b h = cc

pub date_le_of_not_lt : (a b : Date) → date_lt a b ≡ false → date_le b a ≡ true
date_le_of_not_lt (finite a) (finite b) h = ground arith
date_le_of_not_lt (finite a) infinite h = cc
date_le_of_not_lt infinite (finite b) h = refl
date_le_of_not_lt infinite infinite h = refl

module _ {K : Type 0} where
  pub Above-weaken :
      (a b : Date) (ts : List (Date × K)) → date_le a b ≡ true → Above b ts → Above a ts
  Above-weaken a b [] h k = tt
  Above-weaken a b ((e, j) ∷ ts) h k = (date_le_trans a b e h k.0, Above-weaken a b ts h k.1)

  Above-insert_timeout :
      (a d : Date) (k : K) (ts : List (Date × K))
      → date_le a d ≡ true
      → Above a ts
      → Above a (insert_timeout d k ts)
  unfolding insert_timeout
  Above-insert_timeout a d k [] h l = (h, tt)
  Above-insert_timeout a d k ((e, j) ∷ ts) h l = elim (Bool-cases (date_lt d e)) [
    | inl before ↦ rw before (h, l)
    | inr after ↦ rw after (l.0, Above-insert_timeout a d k ts h l.1)
  ]

  pub insert_timeout-Sorted :
      (d : Date) (k : K) (ts : List (Date × K)) → Sorted ts → Sorted (insert_timeout d k ts)
  unfolding insert_timeout
  insert_timeout-Sorted d k [] s = (tt, tt)
  insert_timeout-Sorted d k ((e, j) ∷ ts) s = elim (Bool-cases (date_lt d e)) [
    | inl before ↦
        let le = date_le_of_lt d e before in rw before ((le, Above-weaken d e ts le s.0), s)
    | inr after ↦ rw after (
      Above-insert_timeout e d k ts (date_le_of_not_lt d e after) s.0,
      insert_timeout-Sorted d k ts s.1,
    )
  ]

module _ {K : Type 0} (dec : Discrete K) where
  pub Above-erase_timeout :
      (a : Date) (k : K) (ts : List (Date × K)) → Above a ts → Above a (erase_timeout dec k ts)
  unfolding erase_timeout
  Above-erase_timeout a k [] h = tt
  Above-erase_timeout a k ((e, j) ∷ ts) h = elim (dec j k) [
    | yes same ↦ rw (if_pos _ same) (Above-erase_timeout a k ts h.1)
    | no other ↦ rw (if_neg _ other) (h.0, Above-erase_timeout a k ts h.1)
  ]

  pub erase_timeout-Sorted :
      (k : K) (ts : List (Date × K)) → Sorted ts → Sorted (erase_timeout dec k ts)
  unfolding erase_timeout
  erase_timeout-Sorted k [] h = tt
  erase_timeout-Sorted k ((e, j) ∷ ts) h = elim (dec j k) [
    | yes same ↦ rw (if_pos _ same) (erase_timeout-Sorted k ts h.1)
    | no other ↦ rw (if_neg _ other) (Above-erase_timeout e k ts h.0, erase_timeout-Sorted k ts h.1)
  ]

-- No key has two deadlines.
abbrev pub Unique : {K : Type 0} → Discrete K → List (Date × K) → Type 0
Unique dec [] = Unit
Unique dec ((d, k) ∷ ts) = (due dec k ts ≡ none) × Unique dec ts

module _ {K : Type 0} (dec : Discrete K) where
  pub insert_timeout-Unique :
      (d : Date) (k : K) (ts : List (Date × K))
      → due dec k ts ≡ none
      → Unique dec ts
      → Unique dec (insert_timeout d k ts)
  unfolding insert_timeout due
  insert_timeout-Unique d k [] h u = (refl, tt)
  insert_timeout-Unique d k ((e, j) ∷ ts) h u = elim (Bool-cases (date_lt d e)) [
    | inl before ↦ rw before (h, u)
    | inr after ↦ elim (dec j k) [
      | yes same ↦ cc (if_pos (dec j k) same (some e) (due dec k ts))
      | no other ↦
          let rest = sym (if_neg (dec j k) other (some e) (due dec k ts)) ∙ h in
          rw after (
            due-insert_timeout dec d k j ts rest
                ∙ if_neg (dec k j) (λ q. other (sym q)) (some d) (due dec j ts)
                ∙ u.0,
            insert_timeout-Unique d k ts rest u.1,
          )
    ]
  ]

  pub erase_timeout-Unique :
      (k : K) (ts : List (Date × K)) → Unique dec ts → Unique dec (erase_timeout dec k ts)
  unfolding erase_timeout
  erase_timeout-Unique k [] u = tt
  erase_timeout-Unique k ((e, j) ∷ ts) u = elim (dec j k) [
    | yes same ↦ rw (if_pos _ same) (erase_timeout-Unique k ts u.1)
    | no other ↦ rw (if_neg _ other) (
      due-erase_timeout dec k j ts
          ∙ if_neg (dec k j) (λ q. other (sym q)) none (due dec j ts)
          ∙ u.0,
      erase_timeout-Unique k ts u.1,
    )
  ]

  -- Erasing a key that has no deadline changes nothing.
  pub erase_timeout_absent :
      (k : K) (ts : List (Date × K)) → due dec k ts ≡ none → erase_timeout dec k ts ≡ ts
  unfolding due erase_timeout
  erase_timeout_absent k [] h = refl
  erase_timeout_absent k ((e, j) ∷ ts) h = ground (arith, erase_timeout_absent k ts)

  -- Deadlines behind one that has not passed have not passed.
  pub Above-due :
      (now d : Date) (j : K) (ts : List (Date × K)) (e : Date)
      → date_le d now ≡ false
      → Above d ts
      → due dec j ts ≡ some e
      → date_le e now ≡ false
  unfolding due
  Above-due now d j [] e h u q = cc
  Above-due now d j ((f, i) ∷ ts) e h u q = elim (dec i j) [
    | yes same ↦ later (cc (if_pos (dec i j) same (some f) (due dec j ts)))
    | no other ↦
        Above-due now d j ts e h u.1 (sym (if_neg (dec i j) other (some f) (due dec j ts)) ∙ q)
  ]
    where
      later : e ≡ f → date_le e now ≡ false
      later g = elim (Bool-cases (date_le e now)) [
        | inr fine ↦ fine
        | inl passed ↦ cc (date_le_trans d f now u.0 (rw (← g) passed))
      ]
