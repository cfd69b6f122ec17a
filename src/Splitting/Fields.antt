-- ===== src/Splitting/Fields.antt =====
-- logger/log_message_splitter.h: the fields are the pieces of the text.
use mathlib.Core.List.{append_assoc}
use soa.Prelude.{
  ℕ, zero, suc, ◌+◌, ◌-◌, ◌≤◌, ◌≡◌, ◌≢◌, refl, sym, ap, subst, ◌∙◌, if-elim, Option, none, List, [],
  ◌∷◌, ◌++◌, length, length-take_le, take_all, drop_all, take, drop, get_elem?, leb, ◌||◌, arith,
  length-append,
}
use soa.Splitting.{skip, fill, split_message, between_offsets, field}
use soa.Splitting.Pieces.{pieces, later, pieces-skip, append-skip, slice, join, join-pieces}

-- The texts between neighbouring offsets.
abbrev pub slices : List ℕ → List ℕ → List (List ℕ)
slices text [] = []
slices text (a ∷ []) = []
slices text (a ∷ (b ∷ os)) = take (b - 1 - a) (drop a text) ∷ slices text (b ∷ os)

cut :
    (pre p t : List ℕ)
    → take (length pre + length p + 1 - 1 - length pre) (drop (length pre) (pre ++ (p ++ t))) ≡ p
cut pre p t =
    let e : length pre + length p + 1 - 1 - length pre ≡ length p = omega arith in
    ap (λ n. take n (drop (length pre) (pre ++ (p ++ t)))) e ∙ slice pre p t

module _ (split : ℕ) where
  -- Nothing is left out, or more than an empty piece.
  pub fill-first :
      (room s : ℕ) (text : List ℕ)
      → drop room (pieces split text) ≢ [] ∷ []
      → (more : List ℕ) × (fill split room s text ≡ s ∷ more)
  unfolding fill
  fill-first zero s [] h = absurd (h refl)
  fill-first zero s (c ∷ cs) h = ([], refl)
  fill-first (suc room) s text h = (_, refl)

  after_delimiter :
      (pre p : List ℕ) (d : ℕ) (cs : List ℕ)
      → ((pre ++ (p ++ (d ∷ []))) ++ cs ≡ pre ++ (p ++ (d ∷ cs)))
        × (length (pre ++ (p ++ (d ∷ []))) ≡ length pre + length p + 1)
  after_delimiter pre p d cs = (
    append_assoc pre (p ++ (d ∷ [])) cs ∙ ap (λ t. pre ++ t) (append_assoc p (d ∷ []) cs),
    omega (arith, length-append pre (p ++ (d ∷ [])), length-append p (d ∷ [])),
  )

  pub slices-first :
      (text : List ℕ) (a s : ℕ) (os more : List ℕ)
      → os ≡ s ∷ more
      → slices text (a ∷ os) ≡ take (s - 1 - a) (drop a text) ∷ slices text os
  slices-first text a s os more e = rw e refl

  -- What the offsets of a field are followed by.
  abbrev pub offsets_after : ℕ → ℕ → List ℕ → List ℕ
  offsets_after room s [] = s ∷ []
  offsets_after room s (c ∷ cs) = fill split room s cs

  pub fill-suc :
      (room start : ℕ) (text : List ℕ)
      → fill split (suc room) start text
        ≡ start ∷ offsets_after room (start + length (skip split text).0 + 1) (skip split text).1
  unfolding fill
  fill-suc room start text =
      elim (skip split text).1
        as (λ t.
          (start ∷ elim t [
            | [] ↦ (start + length (skip split text).0 + 1) ∷ []
            | c ∷ cs ↦ fill split room (start + length (skip split text).0 + 1) cs
          ])
          ≡ start ∷ offsets_after room (start + length (skip split text).0 + 1) t) [
            | [] ↦ refl
            | c ∷ cs ↦ refl
          ]

  take-nil : (n : ℕ) → take {A = List ℕ} n [] ≡ []
  take-nil zero = refl
  take-nil (suc n) = refl

  abbrev AreSlices : ℕ → List ℕ → List ℕ → Type 0
  AreSlices room pre text =
      drop room (pieces split text) ≢ [] ∷ []
      → slices (pre ++ text) (fill split room (length pre) text) ≡ take room (pieces split text)

  one_more :
      (room : ℕ) (pre p t : List ℕ)
      → ((pre' cs : List ℕ) → AreSlices room pre' cs)
      → drop room (later split t) ≢ [] ∷ []
      → slices (pre ++ (p ++ t)) (length pre ∷ offsets_after room (length pre + length p + 1) t)
        ≡ p ∷ take room (later split t)
  one_more room pre p [] rec h =
      ap (λ q. q ∷ []) (cut pre p []) ∙ ap (λ l. p ∷ l) (sym (take-nil room))
  one_more room pre p (d ∷ cs) rec h =
      let s = length pre + length p + 1 in
      let (joined, counted) = after_delimiter pre p d cs in
      let (more, first) = fill-first room s cs h in
      slices-first (pre ++ (p ++ (d ∷ cs))) (length pre) s (fill split room s cs) more first
      ∙ ap (λ q. q ∷ slices (pre ++ (p ++ (d ∷ cs))) (fill split room s cs)) (cut pre p (d ∷ cs))
      ∙ ap (λ l. p ∷ l)
          (subst
            (λ n.
              slices (pre ++ (p ++ (d ∷ cs))) (fill split room n cs) ≡ take room (pieces split cs))
            counted
            (subst
              (λ t.
                slices t (fill split room (length (pre ++ (p ++ (d ∷ [])))) cs)
                ≡ take room (pieces split cs))
              joined (rec (pre ++ (p ++ (d ∷ []))) cs h)))

  slices-fill : (room : ℕ) (pre text : List ℕ) → AreSlices room pre text
  unfolding fill
  slices-fill zero pre text h = refl
  slices-fill (suc room) pre text h =
      let p = (skip split text).0 in
      let t = (skip split text).1 in
      let same = pieces-skip split text in
      ap (slices (pre ++ text)) (fill-suc room (length pre) text)
      ∙ ap (λ w. slices (pre ++ w) (length pre ∷ offsets_after room (length pre + length p + 1) t))
          (sym (append-skip split text))
      ∙ one_more room pre p t (λ pre' cs. slices-fill room pre' cs)
          (λ e. h (ap (drop (suc room)) same ∙ e))
      ∙ ap (take (suc room)) (sym same)

pub get_elem?-slices :
    (text os : List ℕ) (i : ℕ)
    → get_elem? (slices text os) i ≡ between_offsets text (get_elem? os i) (get_elem? os (suc i))
get_elem?-slices text [] i = refl
get_elem?-slices text (a ∷ []) zero = refl
get_elem?-slices text (a ∷ []) (suc i) = refl
get_elem?-slices text (a ∷ (b ∷ os)) zero = refl
get_elem?-slices text (a ∷ (b ∷ os)) (suc i) = get_elem?-slices text (b ∷ os) i

pub length-slices : (text os : List ℕ) → length (slices text os) ≡ length os - 1
length-slices text [] = refl
length-slices text (a ∷ []) = refl
length-slices text (a ∷ (b ∷ os)) = omega (arith, length-slices text (b ∷ os))

pub get_elem?_beyond : {A : Type 0} (xs : List A) (i : ℕ) → length xs ≤ i → get_elem? xs i ≡ none
get_elem?_beyond [] i h = refl
get_elem?_beyond (x ∷ xs) zero h = absurd (omega (arith, h))
get_elem?_beyond (x ∷ xs) (suc i) h = get_elem?_beyond xs i (omega (arith, h))

-- Where the delimiters beyond the fields leave more than an empty piece over, or nothing, the fields are
-- the first pieces of the text between its delimiters, as many as there is room for, and any other field
-- is refused.
pub field-split_message :
    (split max : ℕ) (text : List ℕ) (i : ℕ)
    → drop max (pieces split text) ≢ [] ∷ []
    → field (split_message max split text) i ≡ get_elem? (take max (pieces split text)) i
unfolding field split_message
field-split_message split max text i h =
    let os = fill split max 0 text in
    let fields = take max (pieces split text) in
    let same = slices-fill split max [] text h in
    let few = length-take_le max (pieces split text) in
    let counted : length fields ≡ length os - 1 = ap length (sym same) ∙ length-slices text os in
    if-elim (λ (f : Option (List ℕ)). f ≡ get_elem? fields i) (leb (length os - 1) i || leb max i)
      none _
      (λ e. let past : length fields ≤ i = ground arith in sym (get_elem?_beyond fields i past))
      (λ _. sym (get_elem?-slices text os i) ∙ ap (λ l. get_elem? l i) same)

-- With room for every piece the fields are all the pieces of the text between its delimiters, and the
-- pieces with the delimiter between them are the text.
pub join-field :
    (split max : ℕ) (text : List ℕ) (i : ℕ)
    → length (pieces split text) ≤ max
    → (field (split_message max split text) i ≡ get_elem? (pieces split text) i)
      × (join split (pieces split text) ≡ text)
join-field split max text i h = (
  field-split_message split max text i (λ e. let nothing = drop_all max (pieces split text) h in cc)
      ∙ ap (λ l. get_elem? l i) (take_all max (pieces split text) h),
  join-pieces split text,
)
