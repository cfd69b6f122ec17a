-- ===== src/Urls.antt =====
-- types/url.h and types/url.cc: URLs over the parser of googleurl, which is a parameter, and the quoting of
-- their parts. Texts are lists of bytes.
pub mod Quoting
pub mod Stored
mod Examples
use soa.Prelude.{
  ℕ, zero, suc, ◌+◌, ◌-◌, ◌/◌, ◌%◌, Bool, true, false, ◌&&◌, ◌||◌, Option, none, some, List, [],
  ◌∷◌, ◌++◌, ltb, leb, ◌==◌, same_bytes, if◌then◌else◌, codes,
}

abbrev pub Text : Type 0
Text = List ℕ

-- `GURL`
pub record UrlParser (G : Type 0) : Type 0 where
  pub parse : Text → G
  pub possibly_invalid_spec : G → Text
  pub is_valid : G → Bool
  pub spec : G → Text

pub record Url (G : Type 0) : Type 0 where
  pub original : Text
  pub url : G

-- `s.find(part) != string::npos`
abbrev pub starts_with : Text → Text → Bool
starts_with [] s = true
starts_with (c ∷ cs) [] = false
starts_with (c ∷ cs) (d ∷ s) = c == d && starts_with cs s

abbrev pub contains_text : Text → Text → Bool
contains_text part [] = starts_with part []
contains_text part (c ∷ s) = starts_with part (c ∷ s) || contains_text part s

abbrev pub no_text : Text → Bool
no_text [] = true
no_text (c ∷ s) = false

module _ {G : Type 0} (p : UrlParser G) where
  -- `Url::init`
  unfoldable pub init_url : Text → G
  init_url s =
      let full = if contains_text (codes "://") s then s else codes "http://" ++ s in
      let again = codes "http://" ++ full in
      let first = p.parse full in
      if no_text s
      then p.parse s
      else if no_text (p.possibly_invalid_spec first)
      then (let second = p.parse again in
          if no_text (p.possibly_invalid_spec second) then p.parse (again ++ codes "/") else second)
      else first

  unfoldable pub make_url : Text → Url G
  unfolding init_url
  make_url s = record { original = s; url = init_url s }

  abbrev pub url_to_string : Url G → Text
  url_to_string u = if p.is_valid u.url then p.spec u.url else u.original

-- The store of another library: how it writes a byte and a text, and reads them.
pub record UrlStore : Type 0 where
  pub write_byte : ℕ → Text
  pub write_text : Text → Text
  pub read_byte : Text → Option (ℕ × Text)
  pub read_text : Text → Option (Text × Text)

module _ {G : Type 0} (p : UrlParser G) (st : UrlStore) where
  unfoldable pub serialize_url : Url G → Text
  serialize_url u = st.write_byte 0 ++ st.write_text u.original

  -- The text is read where the version is not 0, which is the only one that is written.
  unfoldable pub reconstitute_url : Url G → Text → Option (Url G × Text)
  unfolding make_url
  reconstitute_url u bytes = elim (st.read_byte bytes) [
    | none ↦ none
    | some r ↦
        if r.0 == 0
        then some (make_url p u.original, r.1)
        else elim (st.read_text r.1) [ none ↦ none | some t ↦ some (make_url p t.0, t.1) ]
  ]

-- Of the C locale. A byte of 128 and more is a negative `char`.
abbrev pub is_alnum : ℕ → Bool
is_alnum c = (leb b'0' c && leb c b'9') || (leb b'A' c && leb c b'Z') || (leb b'a' c && leb c b'z')

abbrev pub upper_digit : ℕ → ℕ
upper_digit d = if ltb d 10 then b'0' + d else d - 10 + b'A'

-- The format `%%%02X` of a `char`, which is negative from 128 on and is extended to 32 bits.
abbrev pub format_char : ℕ → Text
format_char c =
    b'%' ∷ (if ltb c 128 then [] else codes "FFFFFF")
    ++ (upper_digit (c / 16) ∷ upper_digit (c % 16) ∷ [])

abbrev pub is_safe : ℕ → ℕ → Bool
is_safe safe c = is_alnum c || c == b'-' || c == b'_' || c == b'.' || c == b'~' || c == safe

unfoldable pub quote_url : ℕ → Text → Text
quote_url safe [] = []
quote_url safe (c ∷ s) = (if is_safe safe c then c ∷ [] else format_char c) ++ quote_url safe s
