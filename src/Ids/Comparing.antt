-- ===== src/Ids/Comparing.antt =====
-- types/id.h: the order of identifiers with their equality and their hash.
use mathlib.Core.Path.{ap₂}
use soa.Prelude.{
  ℕ, ◌<◌, ◌≡◌, refl, sym, ap, ◌∙◌, Bool, true, false, Bool-cases, inl, inr, not, ◌&&◌, List, [],
  lt→ltb, ◌==◌, ==_iff, same_bytes, same_bytes-eq, &&-both, arith,
}
use soa.Ids.{Kind, Ident, simple, string, compound, same_kind}
use soa.Ids.Order.{is_blank, equal_ids, less_both, less, left_behind, hash_id}
use soa.Ids.Keys.{
  decide, lex, lex_trans, lex-same_bytes, key_id, IsProper, same_bytes-key_id, IsLexical,
  lex-key_id, blank_same,
}

module _ (less_all : Bool → Bool → Bool → Bool) (law : IsLexical less_all) where
  lex-less :
      (a b : Ident) → IsProper a → IsProper b → lex (key_id a []) (key_id b []) ≡ less less_all a b
  unfolding lex
  lex-less a b h k =
      lex-key_id less_all a b [] [] law h k
      ∙ last (less_both less_all a b).0 (less_both less_all a b).1
    where
      last : (x y : Bool) → decide x y false ≡ x
      last true y = refl
      last false true = refl
      last false false = refl

  equal-same_bytes :
      (a b : Ident)
      → IsProper a
      → IsProper b
      → same_bytes (key_id a []) (key_id b []) ≡ equal_ids a b
  equal-same_bytes a b h k = same_bytes-key_id a b [] [] h k ∙ and_true (equal_ids a b)
    where
      and_true : (x : Bool) → (x && true) ≡ x
      and_true true = refl
      and_true false = refl

  -- Of two proper identifiers neither is before the other exactly where operator == answers that they are
  -- equal, and never is each before the other.
  pub less-equal_ids :
      (a b : Ident)
      → IsProper a
      → IsProper b
      → (equal_ids a b ≡ (not (less less_all a b) && not (less less_all b a)))
        × ((less less_all a b && less less_all b a) ≡ false)
  less-equal_ids a b h k =
      let (one, two) = lex-same_bytes (key_id a []) (key_id b []) in
      rw (sym (lex-less a b h k), sym (lex-less b a k h), sym (equal-same_bytes a b h k)) (one, two)

  -- The order of proper identifiers is transitive.
  pub less_trans :
      (a b c : Ident)
      → IsProper a
      → IsProper b
      → IsProper c
      → less less_all a b ≡ true
      → less less_all b c ≡ true
      → less less_all a c ≡ true
  less_trans a b c h k l e f =
      sym (lex-less a c h l)
      ∙ lex_trans (key_id a []) (key_id b []) (key_id c []) (lex-less a b h k ∙ e)
          (lex-less b c k l ∙ f)

  -- What is left of two identifiers of which others were made by moving is equal, yet one is before the
  -- other where their unions differ.
  pub left_behind-less :
      (v w : ℕ)
      → v < w
      → (equal_ids (left_behind v) (left_behind w) ≡ true)
        × (less less_all (left_behind v) (left_behind w) ≡ true)
  unfolding equal_ids less_both
  left_behind-less v w h = (refl, lt→ltb v w h)

full_same : (k l : Kind) → same_kind k l ≡ true → is_blank k ≡ false → is_blank l ≡ false
full_same k l h e = ground (arith, h, e)

-- Identifiers that are equal have the same hash, whatever the functions of CityHash are.
pub hash_id-equal_ids :
    (city_hash : List ℕ → ℕ) (hash_pair : ℕ → ℕ → ℕ) (a b : Ident)
    → equal_ids a b ≡ true
    → hash_id city_hash hash_pair a ≡ hash_id city_hash hash_pair b
unfolding hash_id equal_ids
hash_id-equal_ids city_hash hash_pair (simple k v) (simple l w) h =
    elim (Bool-cases (same_kind k l)) [
      | inr differ ↦ cc (rw differ at h)
      | inl same ↦ elim (Bool-cases (is_blank k)) [
        | inl blank ↦ rw (blank, blank_same k l same blank) refl
        | inr full ↦
            let same_number : (v == w) ≡ true = rw (same, full) at h in
            let equal : v ≡ w = (==_iff v w).0 same_number in
            let full_l : is_blank l ≡ false = full_same k l same full in
            rw (full, full_l, equal) refl
      ]
    ]
hash_id-equal_ids city_hash hash_pair (string s) (string t) h = ap city_hash (same_bytes-eq s t h)
hash_id-equal_ids city_hash hash_pair (compound a b) (compound c d) h =
    let (first, second) = &&-both (equal_ids a c) (equal_ids b d) h in
    ap₂ hash_pair (hash_id-equal_ids city_hash hash_pair a c first)
      (hash_id-equal_ids city_hash hash_pair b d second)
hash_id-equal_ids city_hash hash_pair (simple k v) (string t) h = cc
hash_id-equal_ids city_hash hash_pair (simple k v) (compound c d) h = cc
hash_id-equal_ids city_hash hash_pair (string s) (simple l w) h = cc
hash_id-equal_ids city_hash hash_pair (string s) (compound c d) h = cc
hash_id-equal_ids city_hash hash_pair (compound a b) (simple l w) h = cc
hash_id-equal_ids city_hash hash_pair (compound a b) (string t) h = cc
