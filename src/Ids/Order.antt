-- ===== src/Ids/Order.antt =====
-- The equality, the order and the hash of identifiers in types/id.h and types/id.cc. A simple identifier is
-- of a kind below STR. `less_all` of another library is a parameter.
use soa.Prelude.{
  ok, err, ℕ, ◌+◌, ◌%◌, Bool, true, false, not, ◌&&◌, ◌||◌, List, [], ◌∷◌, ltb, ◌==◌, same_bytes,
  if◌then◌else◌,
}
use soa.Ids.{
  Result, not_a_number, too_large, bigdec, Kind, none_id, null_id, Ident, simple, string, compound,
  kind_of, kind_code, same_kind, val1, val2,
}

-- The order of `char`, whose bytes of 128 and more are negative.
abbrev pub signed_key : ℕ → ℕ
signed_key c = (c + 128) % 256

-- `std::lexicographical_compare`
unfoldable pub text_less : List ℕ → List ℕ → Bool
text_less s [] = false
text_less [] (d ∷ t) = true
text_less (c ∷ s) (d ∷ t) =
    if ltb (signed_key c) (signed_key d)
    then true
    else if ltb (signed_key d) (signed_key c)
    then false
    else text_less s t

abbrev pub is_blank : Kind → Bool
is_blank k = same_kind k none_id || same_kind k null_id

-- `operator ==` with `complexEqual`
unfoldable pub equal_ids : Ident → Ident → Bool
equal_ids (simple k v) (simple l w) =
    if not (same_kind k l) then false else if is_blank k then true else v == w
equal_ids (string s) (string t) = same_bytes s t
equal_ids (compound a b) (compound c d) = equal_ids a c && equal_ids b d
equal_ids (simple k v) (string t) = false
equal_ids (simple k v) (compound c d) = false
equal_ids (string s) (simple l w) = false
equal_ids (string s) (compound c d) = false
equal_ids (compound a b) (simple l w) = false
equal_ids (compound a b) (string t) = false

abbrev pub by_kind : Ident → Ident → Bool → Bool
by_kind a b rest =
    if ltb (kind_code (kind_of a)) (kind_code (kind_of b))
    then true
    else if ltb (kind_code (kind_of b)) (kind_code (kind_of a))
    then false
    else rest

-- How `less_all` answers from the two comparisons of its first pair and the comparison of its second pair.
module _ (less_all : Bool → Bool → Bool → Bool) where
  -- `operator <` with `complexLess`, both ways at once.
  unfoldable pub less_both : Ident → Ident → Bool × Bool
  unfolding text_less
  less_both (simple k v) (simple l w) =
      (by_kind (simple k v) (simple l w) (ltb v w), by_kind (simple l w) (simple k v) (ltb w v))
  less_both (string s) (string t) = (text_less s t, text_less t s)
  less_both (compound a b) (compound c d) =
      let p = less_both a c in let q = less_both b d in (less_all p.0 p.1 q.0, less_all p.1 p.0 q.1)
  less_both (simple k v) (string t) = (true, false)
  less_both (simple k v) (compound c d) = (true, false)
  less_both (string s) (simple l w) = (false, true)
  less_both (string s) (compound c d) = (true, false)
  less_both (compound a b) (simple l w) = (false, true)
  less_both (compound a b) (string t) = (false, true)

  abbrev pub less : Ident → Ident → Bool
  less a b = (less_both a b).0

-- `toInt`
abbrev pub to_int : Ident → Result ℕ
to_int (simple k v) =
    if not (same_kind k bigdec)
    then err not_a_number
    else if not (val2 v == 0)
    then err too_large
    else ok (val1 v)
to_int (string s) = err not_a_number
to_int (compound a b) = err not_a_number

-- What the move constructor and the move assignment leave of a simple identifier.
abbrev pub left_behind : ℕ → Ident
left_behind v = simple none_id v

-- The hashes of CityHash.
module _ (city_hash : List ℕ → ℕ) (hash_pair : ℕ → ℕ → ℕ) where
  unfoldable pub hash_id : Ident → ℕ
  hash_id (simple k v) = if is_blank k then 0 else hash_pair (val1 v) (val2 v)
  hash_id (string s) = city_hash s
  hash_id (compound a b) = hash_pair (hash_id a) (hash_id b)
