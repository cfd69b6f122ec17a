-- ===== src/Ids/Keys.antt =====
-- The order of identifiers as the order of lists of numbers: a list for each identifier.
use soa.Prelude.{
  ℕ, ◌+◌, ◌<◌, ◌≡◌, refl, ap, ◌∙◌, Bool, true, false, Bool-cases, inl, inr, not, ◌&&◌, ◌||◌, List,
  [], ◌∷◌, All, ltb, ◌==◌, same_bytes, if◌then◌else◌, arith,
}
use soa.Ids.{Kind, Ident, simple, string, compound, kind_code, same_kind}
use soa.Ids.Order.{signed_key, text_less, is_blank, equal_ids, by_kind, less_both}

abbrev pub decide : Bool → Bool → Bool → Bool
decide x y z = if x then true else if y then false else z

-- The lexicographic order.
unfoldable pub lex : List ℕ → List ℕ → Bool
lex x [] = false
lex [] (d ∷ y) = true
lex (c ∷ x) (d ∷ y) =
    let rest = lex x y in if ltb c d then true else if ltb d c then false else rest

pub lex_trans : (x y z : List ℕ) → lex x y ≡ true → lex y z ≡ true → lex x z ≡ true
unfolding lex
lex_trans x y [] h k = ground (arith, h, k)
lex_trans x [] (d ∷ z) h k = ground (arith, h, k)
lex_trans [] (c ∷ y) (d ∷ z) h k = refl
lex_trans (b ∷ x) (c ∷ y) (d ∷ z) h k = ground (arith, h, k, lex_trans x y z)

-- Of two lists either they are the same or one is before the other, and not both.
pub lex-same_bytes :
    (x y : List ℕ)
    → (same_bytes x y ≡ (not (lex x y) && not (lex y x))) × ((lex x y && lex y x) ≡ false)
unfolding lex
lex-same_bytes [] [] = (refl, refl)
lex-same_bytes [] (d ∷ y) = (refl, refl)
lex-same_bytes (c ∷ x) [] = (refl, refl)
lex-same_bytes (c ∷ x) (d ∷ y) = let ih = lex-same_bytes x y in ground (arith, ih)

-- The characters of a text and an end below them all, in front of a list.
abbrev pub key_text : List ℕ → List ℕ → List ℕ
key_text [] r = 0 ∷ r
key_text (c ∷ s) r = (signed_key c + 1) ∷ key_text s r

abbrev pub key_id : Ident → List ℕ → List ℕ
key_id (simple k v) r = kind_code k ∷ v ∷ r
key_id (string s) r = 192 ∷ key_text s r
key_id (compound a b) r = 193 ∷ key_id a (key_id b r)

-- A simple identifier is of a kind below STR, and one of the kinds NONE and NULLID has nothing in its union.
abbrev pub IsProper : Ident → Type 0
IsProper (simple k v) = (kind_code k < 192) × (is_blank k ≡ true → v ≡ 0)
IsProper (string s) = All (λ c. c < 256) s
IsProper (compound a b) = IsProper a × IsProper b

lex-key_text :
    (s t r u : List ℕ)
    → lex (key_text s r) (key_text t u) ≡ decide (text_less s t) (text_less t s) (lex r u)
unfolding lex text_less
lex-key_text [] [] r u = refl
lex-key_text [] (d ∷ t) r u = ground arith
lex-key_text (c ∷ s) [] r u = ground arith
lex-key_text (c ∷ s) (d ∷ t) r u = let ih = lex-key_text s t r u in ground (arith, ih)

signed_key-test : (c d : ℕ) → c < 256 → d < 256 → (signed_key c + 1 == signed_key d + 1) ≡ (c == d)
signed_key-test c d h k = ground (arith, h, k)

regroup : (x y z : Bool) → (x && (y && z)) ≡ ((x && y) && z)
regroup true y z = refl
regroup false y z = refl

same_bytes-key_text :
    (s t r u : List ℕ)
    → All (λ c. c < 256) s
    → All (λ c. c < 256) t
    → same_bytes (key_text s r) (key_text t u) ≡ (same_bytes s t && same_bytes r u)
same_bytes-key_text [] [] r u h k = refl
same_bytes-key_text [] (d ∷ t) r u h k = ground arith
same_bytes-key_text (c ∷ s) [] r u h k = ground arith
same_bytes-key_text (c ∷ s) (d ∷ t) r u h k =
    let ih = same_bytes-key_text s t r u h.1 k.1 in
    let injective = signed_key-test c d h.0 k.0 in
    rw (injective, ih) (regroup (c == d) (same_bytes s t) (same_bytes r u))

pub blank_same : (k l : Kind) → same_kind k l ≡ true → is_blank k ≡ true → is_blank l ≡ true
blank_same k l h e = ground (arith, h, e)

same_bytes-simple :
    (k l : Kind) (v w : ℕ) (r u : List ℕ)
    → IsProper (simple k v)
    → IsProper (simple l w)
    → same_bytes (kind_code k ∷ v ∷ r) (kind_code l ∷ w ∷ u)
      ≡ (equal_ids (simple k v) (simple l w) && same_bytes r u)
unfolding equal_ids
same_bytes-simple k l v w r u h j = elim (Bool-cases (same_kind k l)) [
  | inr differ ↦ rw differ refl
  | inl same ↦ elim (Bool-cases (is_blank k)) [
    | inr full ↦ rw (same, full) refl
    | inl blank ↦
        let zero_v = h.1 blank in
        let zero_w = j.1 (blank_same k l same blank) in rw (same, blank, zero_v, zero_w) refl
  ]
]

-- Two identifiers are equal where their lists are.
pub same_bytes-key_id :
    (a b : Ident) (r u : List ℕ)
    → IsProper a
    → IsProper b
    → same_bytes (key_id a r) (key_id b u) ≡ (equal_ids a b && same_bytes r u)
unfolding equal_ids
same_bytes-key_id (simple k v) (simple l w) r u h j = same_bytes-simple k l v w r u h j
same_bytes-key_id (string s) (string t) r u h j = same_bytes-key_text s t r u h j
same_bytes-key_id (compound a b) (compound c d) r u h j =
    same_bytes-key_id a c (key_id b r) (key_id d u) h.0 j.0
    ∙ ap (λ z. equal_ids a c && z) (same_bytes-key_id b d r u h.1 j.1)
    ∙ regroup (equal_ids a c) (equal_ids b d) (same_bytes r u)
same_bytes-key_id (simple k v) (string t) r u h j = ground (arith, h.0)
same_bytes-key_id (simple k v) (compound c d) r u h j = ground (arith, h.0)
same_bytes-key_id (string s) (simple l w) r u h j = ground (arith, j.0)
same_bytes-key_id (string s) (compound c d) r u h j = refl
same_bytes-key_id (compound a b) (simple l w) r u h j = ground (arith, j.0)
same_bytes-key_id (compound a b) (string t) r u h j = refl

module _ (less_all : Bool → Bool → Bool → Bool) where
  -- The comparison the other way round is the second answer.
  pub less_both-swap :
      (a b : Ident)
      → ((less_both less_all b a).0 ≡ (less_both less_all a b).1)
        × ((less_both less_all b a).1 ≡ (less_both less_all a b).0)
  unfolding less_both
  less_both-swap (simple k v) (simple l w) = (refl, refl)
  less_both-swap (string s) (string t) = (refl, refl)
  less_both-swap (compound a b) (compound c d) =
      let (p, q) = less_both-swap a c in
      let (x, y) = less_both-swap b d in (rw (p, q, x) refl, rw (p, q, y) refl)
  less_both-swap (simple k v) (string t) = (refl, refl)
  less_both-swap (simple k v) (compound c d) = (refl, refl)
  less_both-swap (string s) (simple l w) = (refl, refl)
  less_both-swap (string s) (compound c d) = (refl, refl)
  less_both-swap (compound a b) (simple l w) = (refl, refl)
  less_both-swap (compound a b) (string t) = (refl, refl)

  -- `less_all` is lexicographic.
  abbrev pub IsLexical : Type 0
  IsLexical = (x y z : Bool) → less_all x y z ≡ (x || (not y && z))

  nested :
      IsLexical
      → (x y z w o : Bool) → decide x y (decide z w o) ≡ decide (less_all x y z) (less_all y x w) o
  nested h x y z w o = rw (h x y z, h y x w) (cases x y z w o)
    where
      cases :
          (x y z w o : Bool)
          → decide x y (decide z w o) ≡ decide (x || (not y && z)) (y || (not x && w)) o
      cases true y z w o = refl
      cases false true z w o = refl
      cases false false z w o = refl

  lex-simple :
      (k l : Kind) (v w : ℕ) (r u : List ℕ)
      → lex (kind_code k ∷ v ∷ r) (kind_code l ∷ w ∷ u)
        ≡ decide
            (by_kind (simple k v) (simple l w) (ltb v w))
            (by_kind (simple l w) (simple k v) (ltb w v))
            (lex r u)
  unfolding lex
  lex-simple k l v w r u = ground arith

  pub lex-key_id :
      (a b : Ident) (r u : List ℕ)
      → IsLexical
      → IsProper a
      → IsProper b
      → lex (key_id a r) (key_id b u)
        ≡ decide (less_both less_all a b).0 (less_both less_all a b).1 (lex r u)
  unfolding lex less_both
  lex-key_id (simple k v) (simple l w) r u law h j = lex-simple k l v w r u
  lex-key_id (string s) (string t) r u law h j = lex-key_text s t r u
  lex-key_id (compound a b) (compound c d) r u law h j =
      let p = less_both less_all a c in
      let q = less_both less_all b d in
      lex-key_id a c (key_id b r) (key_id d u) law h.0 j.0
      ∙ ap (decide p.0 p.1) (lex-key_id b d r u law h.1 j.1)
      ∙ nested law p.0 p.1 q.0 q.1 (lex r u)
  lex-key_id (simple k v) (string t) r u law h j = ground (arith, h.0)
  lex-key_id (simple k v) (compound c d) r u law h j = ground (arith, h.0)
  lex-key_id (string s) (simple l w) r u law h j = ground (arith, j.0)
  lex-key_id (string s) (compound c d) r u law h j = refl
  lex-key_id (compound a b) (simple l w) r u law h j = ground (arith, j.0)
  lex-key_id (compound a b) (string t) r u law h j = refl
