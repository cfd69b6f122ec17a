-- ===== src/Splitting/Examples.antt =====
-- The theorems about splitting at concrete texts, and tests.
use soa.Prelude.{
  ℕ, ◌≡◌, ◌↔◌, refl, true, none, some, List, [], ◌∷◌, ◌++◌, codes, take, get_elem?, arith,
}
use soa.Splitting.{split_message, field, fill, field_equals}
use soa.Splitting.Comparing.{field_equals_lem}
use soa.Splitting.Pieces.{pieces}
use soa.Splitting.Fields.{field-split_message}
use soa.Splitting.Ends.{field-split_message_end}

abbrev line : List ℕ
line = codes "one,two,,four"

field-split_message_example :
    field (split_message 2 b',' line) 1 ≡ get_elem? (take 2 (pieces b',' line)) 1
field-split_message_example = field-split_message b',' 2 line 1 (λ e. cc)

-- Two fields, the second with the last delimiter.
field-split_message_end_example :
    field (split_message 2 b',' (codes "one,two,")) 1 ≡ some (codes "two" ++ (b',' ∷ []))
field-split_message_end_example =
    field-split_message_end b',' 1 (codes "one,two,") (codes "two") refl refl

second : field (split_message 2 b',' line) 1 ≡ some (codes "two")
unfolding field split_message fill
second = refl

refused : field (split_message 2 b',' line) 2 ≡ none
unfolding field split_message fill
refused = refl

field_equals_lem_example :
    (field_equals (codes "ab") (codes "abc") ≡ true)
    ↔ ((rest : List ℕ) × (codes "abc" ≡ codes "ab" ++ rest))
field_equals_lem_example =
    field_equals_lem (codes "ab") (codes "abc")
      ((λ e. omega (arith, e)), ((λ e. omega (arith, e)), tt))
