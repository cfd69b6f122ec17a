-- ===== src/Splitting/Pieces.antt =====
-- The pieces of a text, described without offsets.
use soa.Prelude.{
  ℕ, ◌≡◌, refl, ap, ◌∙◌, Bool-cases, inl, inr, List, [], ◌∷◌, ◌++◌, length, take, drop, ◌==◌,
  if◌then◌else◌, arith,
}
use soa.Splitting.{skip}

abbrev pub onto_first : ℕ → List (List ℕ) → List (List ℕ)
onto_first c [] = (c ∷ []) ∷ []
onto_first c (p ∷ ps) = (c ∷ p) ∷ ps

-- The pieces between the delimiters.
abbrev pub pieces : ℕ → List ℕ → List (List ℕ)
pieces split [] = [] ∷ []
pieces split (c ∷ cs) = if c == split then [] ∷ pieces split cs else onto_first c (pieces split cs)

-- The pieces behind a delimiter, if there is one.
abbrev pub later : ℕ → List ℕ → List (List ℕ)
later split [] = []
later split (d ∷ cs) = pieces split cs

-- The first piece is what is skipped.
pub pieces-skip :
    (split : ℕ) (text : List ℕ)
    → pieces split text ≡ (skip split text).0 ∷ later split (skip split text).1
pieces-skip split [] = refl
pieces-skip split (c ∷ cs) = elim (Bool-cases (c == split)) [
  | inl e ↦ rw e refl
  | inr e ↦ rw e (ap (onto_first c) (pieces-skip split cs))
]

pub append-skip : (split : ℕ) (text : List ℕ) → (skip split text).0 ++ (skip split text).1 ≡ text
append-skip split [] = refl
append-skip split (c ∷ cs) = elim (Bool-cases (c == split)) [
  | inl e ↦ rw e refl
  | inr e ↦ rw e (ap (λ t. c ∷ t) (append-skip split cs))
]

-- The pieces with the delimiter between them.
abbrev pub join : ℕ → List (List ℕ) → List ℕ
join split [] = []
join split (p ∷ []) = p
join split (p ∷ (p' ∷ ps)) = p ++ (split ∷ join split (p' ∷ ps))

-- The text between two places.
pub slice : (a b c : List ℕ) → take (length b) (drop (length a) (a ++ (b ++ c))) ≡ b
slice [] [] c = refl
slice [] (x ∷ b) c = ap (λ t. x ∷ t) (slice [] b c)
slice (x ∷ a) b c = slice a b c

-- Two pieces behind one another make the text of the first, the delimiter and the others.
onto_first-join :
    (split c : ℕ) (ps : List (List ℕ)) → join split (onto_first c ps) ≡ c ∷ join split ps
onto_first-join split c [] = refl
onto_first-join split c (p ∷ []) = refl
onto_first-join split c (p ∷ (p' ∷ ps)) = refl

behind :
    (split : ℕ) (text : List ℕ)
    → join split ([] ∷ pieces split text) ≡ split ∷ join split (pieces split text)
behind split text = rw (pieces-skip split text) refl

pub join-pieces : (split : ℕ) (text : List ℕ) → join split (pieces split text) ≡ text
join-pieces split [] = refl
join-pieces split (c ∷ cs) = elim (Bool-cases (c == split)) [
  | inl e ↦
      let same : split ≡ c = ground arith in
      rw e (behind split cs ∙ ap (λ t. split ∷ t) (join-pieces split cs) ∙ ap (λ d. d ∷ cs) same)
  | inr e ↦
      rw e (onto_first-join split c (pieces split cs) ∙ ap (λ t. c ∷ t) (join-pieces split cs))
]
