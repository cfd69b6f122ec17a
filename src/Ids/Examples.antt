-- ===== src/Ids/Examples.antt =====
-- The theorems about identifiers at concrete texts and a concrete store, and tests of `parse`.
use soa.Prelude.{
  Bool, true, false, not, ◌&&◌, ◌||◌, ℕ, zero, suc, ◌+◌, ◌*◌, ◌/◌, ◌%◌, ◌^◌, ◌<◌, ◌≡◌, refl, ap,
  List, [], ◌∷◌, ◌++◌, ok, err, ◌>>=◌, length, take, drop, codes, arith,
}
use soa.Ids.{
  Ident, simple, string, compound, unknown, bigdec, hex128lc, uuid_caps, null_id, Result,
  end_of_store, too_large,
}
use soa.Ids.Parse.{
  parse, parse_value, parse_uuid, parse_goog, parse_bigdec, parse_base64, parse_hex128,
}
use soa.Ids.Print.{to_string}
use soa.Ids.RoundTrip.{parse-to_string}
use soa.Ids.Store.{Format, IsExact, serialize, reconstitute}
use soa.Ids.Stored.{reconstitute-serialize}
use soa.Ids.Order.{text_less, equal_ids, less_both, less, to_int, left_behind, hash_id}
use soa.Ids.Keys.{IsProper}
use soa.Ids.Comparing.{less-equal_ids, less_trans, hash_id-equal_ids}

abbrev a_uuid : List ℕ
a_uuid = codes "0828398C-5965-11E0-84C8-0026B937C8E1"

parse-to_string_example : (r : Ident) × (parse unknown a_uuid ≡ ok r) × (to_string r ≡ ok a_uuid)
parse-to_string_example = parse-to_string a_uuid ((λ h. absurd (omega (arith, h))), omega arith)

-- A store of bytes, in which the length of a string stands before it.
abbrev bytes_of : ℕ → ℕ → List ℕ
bytes_of zero v = []
bytes_of (suc n) v = v % 256 ∷ bytes_of n (v / 256)

abbrev number_of : ℕ → List ℕ → Result (ℕ × List ℕ)
number_of zero bytes = ok (0, bytes)
number_of (suc n) [] = err end_of_store
number_of (suc n) (b ∷ bytes) = number_of n bytes >>= λ r. ok (b + 256 * r.0, r.1)

abbrev text_of : List ℕ → Result (List ℕ × List ℕ)
text_of [] = err end_of_store
text_of (n ∷ bytes) = ok (take n bytes, drop n bytes)

abbrev byte_store : Format
byte_store = record {
  save_char = bytes_of 1;
  load_char = number_of 1;
  save_binary = bytes_of;
  load_binary = number_of;
  save_string = λ s. length s ∷ s;
  load_string = text_of;
  load_int = number_of 4;
}

number_of-bytes_of :
    (n v : ℕ) (rest : List ℕ) → v < 256 ^ n → number_of n (bytes_of n v ++ rest) ≡ ok (v, rest)
number_of-bytes_of zero v rest h = let e : 0 ≡ v = omega (arith, h) in ap (λ w. ok (w, rest)) e
number_of-bytes_of (suc n) v rest h =
    rw (number_of-bytes_of n (v / 256) rest (omega (arith, h)))
      (let e : v % 256 + 256 * (v / 256) ≡ v = omega arith in ap (λ w. ok (w, rest)) e)

text_of_lem : (s rest : List ℕ) → text_of ((length s ∷ s) ++ rest) ≡ ok (s, rest)
text_of_lem [] rest = refl
text_of_lem (c ∷ s) rest = ap (λ r. r >>= λ p. ok (c ∷ p.0, p.1)) (text_of_lem s rest)

byte_store-IsExact : IsExact byte_store
byte_store-IsExact = record {
  char = λ c rest h. number_of-bytes_of 1 c rest (omega (arith, h));
  binary = number_of-bytes_of;
  text = text_of_lem;
}

abbrev a_pair : Ident
a_pair =
    compound (simple uuid_caps (2 ^ 127 + 5)) (compound (string (codes "abc")) (simple null_id 0))

reconstitute-serialize_example :
    (bytes : List ℕ) × (serialize byte_store a_pair ≡ ok bytes)
    × (reconstitute byte_store 7 (bytes ++ codes "xyz") ≡ ok (a_pair, codes "xyz"))
reconstitute-serialize_example =
    reconstitute-serialize byte_store byte_store-IsExact a_pair 7 (codes "xyz")
      (omega arith, (tt, omega arith)) (omega arith)

zero_text : parse unknown (codes "0") ≡ ok (simple bigdec 0)
unfolding parse parse_value
zero_text = refl

-- The case of the letters of a hexadecimal number is not kept.
capitals :
    parse unknown (codes "0000000000000000000000000000000A") ≡ ok (simple hex128lc (2 ^ 64 * 10))
unfolding parse parse_value parse_hex128 parse_uuid parse_goog parse_bigdec parse_base64
capitals = refl

-- 39 digits may be more than 128 bits.
wraps : parse unknown (codes "340282366920938463463374607431768211457") ≡ ok (simple bigdec 1)
unfolding parse parse_value parse_bigdec parse_goog parse_uuid
wraps = refl

abbrev lexical : Bool → Bool → Bool → Bool
lexical x y z = x || (not y && z)

-- A number, a text with a letter of two bytes, and a pair of both.
abbrev number_id : Ident
number_id = simple bigdec 12

abbrev text_id : Ident
text_id = string (b'a' ∷ 195 ∷ 169 ∷ [])

abbrev pair_id : Ident
pair_id = compound number_id text_id

number_id-IsProper : IsProper number_id
number_id-IsProper = (omega arith, λ h. cc)

text_id-IsProper : IsProper text_id
text_id-IsProper = (omega arith, (omega arith, (omega arith, tt)))

less-equal_ids_example :
    (equal_ids text_id pair_id
      ≡ (not (less lexical text_id pair_id) && not (less lexical pair_id text_id)))
    × ((less lexical text_id pair_id && less lexical pair_id text_id) ≡ false)
less-equal_ids_example =
    less-equal_ids lexical (λ x y z. refl) text_id pair_id text_id-IsProper
      (number_id-IsProper, text_id-IsProper)

less_trans_example : less lexical number_id pair_id ≡ true
unfolding less_both
less_trans_example =
    less_trans lexical (λ x y z. refl) number_id text_id pair_id number_id-IsProper text_id-IsProper
      (number_id-IsProper, text_id-IsProper) refl refl

hash_id-equal_ids_example :
    hash_id length (λ x y. x + 31 * y) (left_behind 5)
    ≡ hash_id length (λ x y. x + 31 * y) (left_behind 6)
unfolding equal_ids
hash_id-equal_ids_example =
    hash_id-equal_ids length (λ x y. x + 31 * y) (left_behind 5) (left_behind 6) refl

-- As signed characters the bytes of the letter are before all of ASCII.
signed-order : text_less (195 ∷ 169 ∷ []) (codes "a") ≡ true
unfolding text_less
signed-order = refl

too_large_for_int : to_int (simple bigdec (2 ^ 64)) ≡ err too_large
too_large_for_int = refl
