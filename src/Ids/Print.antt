-- ===== src/Ids/Print.antt =====
-- types/id.cc: `toString`.
use soa.Prelude.{ℕ, List, [], ◌∷◌, ◌++◌, ok, err, ◌>>=◌, codes, ◌==◌, if◌then◌else◌}
use soa.Prelude.Digits.{print, print_all}
use soa.Ids.{
  Kind, unknown, none_id, null_id, uuid, goog128, bigdec, base64_96, hex128lc, int64dec, uuid_caps,
  str, compound2, Ident, simple, string, compound, unknown_type, Result, val1, val2, f1, f2, f3, f4,
  f5,
}
use soa.Ids.Characters.{
  Caps, lower, upper, hex_to_dec, hex_char, goog_to_dec, goog_char, base64_to_dec, base64_char,
  digit_to_dec, digit_char,
}

-- `%0nx`, of a number that has no more digits.
abbrev pub hex : Caps → ℕ → ℕ → List ℕ
hex k n v = print hex_to_dec (hex_char k) 16 n v []

unfoldable pub uuid_text : Caps → ℕ → List ℕ
uuid_text k v =
    hex k 8 (f1 v)
    ++ (b'-'
        ∷ (hex k 4 (f2 v)
            ++ (b'-' ∷ (hex k 4 (f3 v) ++ (b'-' ∷ (hex k 4 (f4 v) ++ (b'-' ∷ hex k 12 (f5 v))))))))

unfoldable pub goog_text : ℕ → List ℕ
goog_text v = codes "CAESE" ++ print goog_to_dec goog_char 64 21 v []

-- A number of 128 bits has at most 39 digits.
unfoldable pub bigdec_text : ℕ → List ℕ
bigdec_text v =
    if val2 v == 0
    then (if val1 v == 0 then codes "0" else print_all digit_to_dec digit_char 10 40 (val1 v) [])
    else print_all digit_to_dec digit_char 10 40 v []

unfoldable pub base64_text : ℕ → List ℕ
base64_text v = print base64_to_dec base64_char 64 16 v []

unfoldable pub hex128_text : ℕ → List ℕ
hex128_text v = hex lower 16 (val1 v) ++ hex lower 16 (val2 v)

unfoldable pub simple_text : Kind → ℕ → Result (List ℕ)
unfolding uuid_text goog_text bigdec_text base64_text hex128_text
simple_text none_id v = ok []
simple_text null_id v = ok (codes "null")
simple_text uuid v = ok (uuid_text lower v)
simple_text uuid_caps v = ok (uuid_text upper v)
simple_text goog128 v = ok (goog_text v)
simple_text bigdec v = ok (bigdec_text v)
simple_text base64_96 v = ok (base64_text v)
simple_text hex128lc v = ok (hex128_text v)
simple_text int64dec v = err unknown_type
simple_text str v = err unknown_type
simple_text compound2 v = err unknown_type
simple_text unknown v = err unknown_type

unfoldable pub to_string : Ident → Result (List ℕ)
unfolding simple_text
to_string (simple k v) = simple_text k v
to_string (string s) = ok s
to_string (compound a b) = to_string a >>= λ s. to_string b >>= λ t. ok (s ++ (b':' ∷ t))
