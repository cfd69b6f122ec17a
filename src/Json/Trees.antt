-- ===== src/Json/Trees.antt =====
-- types/json_printing.cc: the calls that print a value, and the text that they write.
use soa.Prelude.{
  ℕ, Bool, true, false, List, [], ◌∷◌, ◌++◌, Outcome, ok, ◌>>=◌, if◌then◌else◌, codes,
}
use soa.Json.{
  Bytes, Writers, JsonFault, write_string_utf8, quoted, PrintCall, start_object, end_object,
  start_array, new_array_element, end_array, write_null, start_member, write_string, write_number,
  write_string_utf8_call, write_bool,
}

mutual
  pub data Value : Type 0 where
    null : Value
    boolean : Bool → Value
    -- with the text of the number
    number : Bytes → Value
    text : Bytes → Value
    utf8_text : List ℕ → Value
    array : Elements → Value
    object : Members → Value

  pub data Elements : Type 0 where
    no_elements : Elements
    element : Value → Elements → Elements

  pub data Members : Type 0 where
    no_members : Members
    member : Bytes → Value → Members → Members

-- The calls for a value, with calls that follow.
unfoldable mutual
  pub calls : Value → List PrintCall → List PrintCall
  calls null ps = write_null ∷ ps
  calls (boolean b) ps = write_bool b ∷ ps
  calls (number t) ps = write_number t ∷ ps
  calls (text s) ps = write_string s ∷ ps
  calls (utf8_text s) ps = write_string_utf8_call s ∷ ps
  calls (array es) ps = start_array ∷ element_calls es (end_array ∷ ps)
  calls (object ms) ps = start_object ∷ member_calls ms (end_object ∷ ps)

  pub element_calls : Elements → List PrintCall → List PrintCall
  element_calls no_elements ps = ps
  element_calls (element v es) ps = new_array_element ∷ calls v (element_calls es ps)

  pub member_calls : Members → List PrintCall → List PrintCall
  member_calls no_members ps = ps
  member_calls (member name v ms) ps = start_member name ∷ calls v (member_calls ms ps)

module _ (w : Writers) (write_utf8 : Bool) where
  abbrev pub comma : Bool → Bytes
  comma first = if first then [] else b',' ∷ []

  -- The text of a value: elements and members with commas between them.
  unfoldable mutual
    pub print : Value → Outcome JsonFault Bytes
    print null = ok (codes "null")
    print (boolean b) = ok (if b then codes "true" else codes "false")
    print (number t) = ok t
    print (text s) = ok (quoted (w.json_escape s))
    print (utf8_text s) = write_string_utf8 w write_utf8 s
    print (array es) = print_elements true es >>= λ t. ok (b'[' ∷ t ++ codes "]")
    print (object ms) = print_members true ms >>= λ t. ok (b'{' ∷ t ++ codes "}")

    pub print_elements : Bool → Elements → Outcome JsonFault Bytes
    print_elements first no_elements = ok []
    print_elements first (element v es) =
        print v >>= λ t. print_elements false es >>= λ u. ok (comma first ++ t ++ u)

    pub print_members : Bool → Members → Outcome JsonFault Bytes
    print_members first no_members = ok []
    print_members first (member name v ms) = print v >>= λ t. print_members false ms >>= λ u.
        ok (comma first ++ (quoted (w.json_escape name) ++ codes ":") ++ t ++ u)
