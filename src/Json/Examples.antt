-- ===== src/Json/Examples.antt =====
-- The theorems about JSON printing at concrete values, and tests of the calls.
use soa.Prelude.{
  ℕ, suc, ◌+◌, ◌/◌, ◌%◌, ◌≤◌, ◌≡◌, refl, true, false, none, some, [], ◌∷◌, ◌++◌, length, All, ok,
  err, ◌>>=◌, ltb, if◌then◌else◌, if-elim, codes, ltb→lt, arith,
}
use soa.Json.{
  Bytes, Writers, assertion, no_container, StreamContext, write_chars, write_string_utf8,
  start_member, end_object, start_array, end_array, perform_all,
}
use soa.Json.Reading.{read_string}
use soa.Json.Strings.{read_string-write_string_utf8}
use soa.Json.Characters.{IsUtf8, any_bare, utf8}
use soa.Json.Controls.{read_string-utf8}
use soa.Json.Trees.{
  Value, null, boolean, number, utf8_text, array, object, no_elements, element, no_members, member,
  calls, print,
}
use soa.Json.Printing.{perform_all-calls}

-- Characters below 65536, in one byte to three.
abbrev encode : ℕ → Bytes
encode c =
    if ltb c 128
    then c ∷ []
    else if ltb c 2048
    then (192 + c / 64) ∷ (128 + c % 64) ∷ []
    else (224 + c / 4096) ∷ (128 + c / 64 % 64) ∷ (128 + c % 64) ∷ []

abbrev writers : Writers
writers = record { json_escape = λ s. s; append_utf8 = encode }

writers-IsUtf8 : IsUtf8 writers
writers-IsUtf8 = record {
  low = λ c h. ground (arith, h);
  high = λ c h.
      if-elim (All (λ b. 128 ≤ b)) (ltb c 128) _ _ (λ e. absurd (omega (arith, h, ltb→lt c 128 e)))
        (λ _.
          if-elim (All (λ b. 128 ≤ b)) (ltb c 2048) _ _ (λ _. (omega arith, (omega arith, tt)))
            (λ _. (omega arith, (omega arith, (omega arith, tt)))));
}

-- A tab, a quote, a letter of two bytes and a control character.
read_string-write_string_utf8_example :
    (t : Bytes) × (write_string_utf8 writers false (9 ∷ b'"' ∷ 233 ∷ 1 ∷ []) ≡ ok (b'"' ∷ t))
    × (read_string 5 (t ++ codes ",") ≡ some (9 ∷ b'"' ∷ 233 ∷ 1 ∷ [], codes ","))
read_string-write_string_utf8_example =
    read_string-write_string_utf8 writers (9 ∷ b'"' ∷ 233 ∷ 1 ∷ []) (codes ",")
      (omega arith, (omega arith, (omega arith, (omega arith, tt))))

escaped :
    write_string_utf8 writers false (9 ∷ b'"' ∷ 233 ∷ 1 ∷ [])
    ≡ ok (codes "\"\\t\\\"\\u00e9\\u0001\"")
unfolding write_chars
escaped = refl

outside_plane : write_string_utf8 writers false (b'a' ∷ 128512 ∷ []) ≡ err assertion
unfolding write_chars
outside_plane = refl

-- With writeUtf8 the control character is written as it is.
read_string-utf8_example :
    (t : Bytes) × (write_string_utf8 writers true (9 ∷ 233 ∷ 1 ∷ []) ≡ ok (b'"' ∷ t))
    × (read_string (length (utf8 writers (9 ∷ 233 ∷ 1 ∷ [])) + suc 3) (t ++ codes ",") ≡ (
        if any_bare (9 ∷ 233 ∷ 1 ∷ [])
        then none
        else some (utf8 writers (9 ∷ 233 ∷ 1 ∷ []), codes ",")))
read_string-utf8_example = read_string-utf8 writers writers-IsUtf8 (9 ∷ 233 ∷ 1 ∷ []) (codes ",") 3

bare_control : write_string_utf8 writers true (1 ∷ []) ≡ ok (b'"' ∷ 1 ∷ b'"' ∷ [])
unfolding write_chars
bare_control = refl

abbrev sample : Value
sample = object (
    member (codes "a")
      (array
        (element (number (codes "1")) (element null (element (utf8_text (codes "x")) no_elements))))
      (member (codes "b") (boolean true) (member (codes "c") (object no_members) no_members)))

abbrev started : StreamContext
started = record { path = record { is_object = false; members = 1 } ∷ []; out = codes "[" }

perform_all-calls_example : perform_all writers true (calls sample (end_array ∷ [])) started ≡ (
    print writers true sample >>= λ t.
    perform_all writers true
      (end_array ∷ [])
      (record { path = started.path; out = started.out ++ t }))
perform_all-calls_example = perform_all-calls writers true sample (end_array ∷ []) started

sample-written :
    perform_all writers true (calls sample (end_array ∷ [])) started
    ≡ ok (record { path = []; out = codes "[{\"a\":[1,null,\"x\"],\"b\":true,\"c\":{}}]" })
unfolding perform_all calls write_chars
sample-written = refl

-- A member of an array, and an end with nothing open.
misplaced :
    perform_all writers true
      (start_array ∷ start_member (codes "a") ∷ [])
      (record { path = []; out = [] })
    ≡ err assertion
unfolding perform_all
misplaced = refl

nothing_open :
    perform_all writers true (end_object ∷ []) (record { path = []; out = [] }) ≡ err no_container
unfolding perform_all
nothing_open = refl
