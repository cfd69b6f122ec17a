-- ===== src/Json.antt =====
-- `StreamJsonPrintingContext` of types/json_printing.h and .cc: values are printed as JSON by a sequence of
-- calls. What is written is a list of bytes. What a call has written before it throws is not kept.
pub mod Reading
pub mod Strings
pub mod Characters
pub mod Controls
pub mod Trees
pub mod Printing
mod Examples
use soa.Prelude.{
  ℕ, zero, suc, ◌+◌, ◌-◌, ◌/◌, ◌%◌, ◌≡◌, Bool, true, false, ◌&&◌, ◌||◌, not, List, [], ◌∷◌, ◌++◌,
  Outcome, ok, err, ◌>>=◌, ltb, ◌==◌, if◌then◌else◌, codes,
}

abbrev pub Bytes : Type 0
Bytes = List ℕ

-- The assertions of the code, and `path.back()` of an empty vector.
pub data JsonFault : Type 0 where
  assertion no_container : JsonFault

-- `members` is `memberNum`, which starts at -1, and one.
pub record PathEntry : Type 0 where
  pub is_object : Bool
  pub members : ℕ

-- The top of `path` comes first.
pub record StreamContext : Type 0 where
  pub path : List PathEntry
  pub out : Bytes

-- What other libraries write: `ML::jsonEscape` and `utf8::unchecked::append`.
pub record Writers : Type 0 where
  pub json_escape : Bytes → Bytes
  pub append_utf8 : ℕ → Bytes

abbrev pub hex_digit : ℕ → ℕ
hex_digit d = if ltb d 10 then b'0' + d else d - 10 + b'a'

-- The format `\u%04x` of a number of 16 bits.
abbrev pub format_u : ℕ → Bytes
format_u c =
    b'\\'
    ∷ b'u'
    ∷ hex_digit (c / 4096)
    ∷ hex_digit (c / 256 % 16)
    ∷ hex_digit (c / 16 % 16)
    ∷ hex_digit (c % 16)
    ∷ []

abbrev pub is_plain : ℕ → Bool
is_plain c = not (ltb c 32) && ltb c 127 && not (c == b'"') && not (c == b'\\')

-- One character of `writeStringUtf8`.
abbrev pub write_char : Writers → Bool → ℕ → Outcome JsonFault Bytes
write_char w write_utf8 c =
    if is_plain c
    then ok (c ∷ [])
    else if c == 9
    then ok (codes "\\t")
    else if c == 10
    then ok (codes "\\n")
    else if c == 13
    then ok (codes "\\r")
    else if c == 8
    then ok (codes "\\b")
    else if c == 12
    then ok (codes "\\f")
    else if c == b'/' || c == b'\\' || c == b'"'
    then ok (b'\\' ∷ c ∷ [])
    else if write_utf8
    then ok (w.append_utf8 c)
    else if ltb c 65536
    then ok (format_u c)
    else err assertion

unfoldable pub write_chars : Writers → Bool → List ℕ → Outcome JsonFault Bytes
write_chars w write_utf8 [] = ok []
write_chars w write_utf8 (c ∷ cs) =
    write_char w write_utf8 c >>= λ t. write_chars w write_utf8 cs >>= λ u. ok (t ++ u)

abbrev pub quoted : Bytes → Bytes
quoted t = b'"' ∷ t ++ (b'"' ∷ [])

-- `writeStringUtf8`
abbrev pub write_string_utf8 : Writers → Bool → List ℕ → Outcome JsonFault Bytes
write_string_utf8 w write_utf8 s = write_chars w write_utf8 s >>= λ t. ok (quoted t)

-- The calls of a printing context. A number comes with the text that the stream or `dtoa` gives it, and a
-- value of JsonCpp with its own.
pub data PrintCall : Type 0 where
  start_object end_object start_array new_array_element end_array skip write_null : PrintCall
  start_member write_string write_number write_json : Bytes → PrintCall
  write_string_utf8_call : List ℕ → PrintCall
  write_bool : Bool → PrintCall

module _ (w : Writers) (write_utf8 : Bool) where
  abbrev pub put_text : Bytes → StreamContext → StreamContext
  put_text t c = record c { out = c.out ++ t }

  -- `++path.back().memberNum`, with a comma unless it is the first.
  abbrev pub next_member : Bool → StreamContext → Outcome JsonFault StreamContext
  next_member object c = elim c.path [
    | [] ↦ err no_container
    | e ∷ es ↦
        if (if object then e.is_object else not e.is_object)
        then ok (record {
          path = record e { members = e.members + 1 } ∷ es;
          out = if e.members == 0 then c.out else c.out ++ (b',' ∷ []);
        })
        else err assertion
  ]

  abbrev pub end_container : Bool → Bytes → StreamContext → Outcome JsonFault StreamContext
  end_container object t c = elim c.path [
    | [] ↦ err no_container
    | e ∷ es ↦
        if (if object then e.is_object else not e.is_object)
        then ok (record { path = es; out = c.out ++ t })
        else err assertion
  ]

  abbrev pub open_container : Bool → Bytes → StreamContext → StreamContext
  open_container object t c = record {
    path = record { is_object = object; members = 0 } ∷ c.path;
    out = c.out ++ t;
  }

  unfoldable pub perform : PrintCall → StreamContext → Outcome JsonFault StreamContext
  unfolding write_chars
  perform start_object c = ok (open_container true (codes "{") c)
  perform (start_member name) c =
      next_member true c >>= λ d. ok (put_text (quoted (w.json_escape name) ++ codes ":") d)
  perform end_object c = end_container true (codes "}") c
  perform start_array c = ok (open_container false (codes "[") c)
  perform new_array_element c = next_member false c
  perform end_array c = end_container false (codes "]") c
  perform skip c = ok (put_text (codes "null") c)
  perform write_null c = ok (put_text (codes "null") c)
  perform (write_number t) c = ok (put_text t c)
  perform (write_string s) c = ok (put_text (quoted (w.json_escape s)) c)
  perform (write_string_utf8_call s) c = write_string_utf8 w write_utf8 s >>= λ t. ok (put_text t c)
  perform (write_json t) c = ok (put_text t c)
  perform (write_bool b) c = ok (put_text (if b then codes "true" else codes "false") c)

  unfoldable pub perform_all : List PrintCall → StreamContext → Outcome JsonFault StreamContext
  unfolding perform
  perform_all [] c = ok c
  perform_all (p ∷ ps) c = perform p c >>= λ d. perform_all ps d
