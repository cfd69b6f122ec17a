-- ===== src/Urls/Examples.antt =====
-- The theorems about URLs at concrete texts.
use soa.Prelude.{◌≡◌, refl, true, none, some, [], ◌∷◌, length, take, drop, codes, arith}
use soa.Urls.{Text, UrlParser, init_url, UrlStore, quote_url}
use soa.Urls.Quoting.{plain, unquote, seen, unquote-quote_url}
use soa.Urls.Stored.{ReadsBytes}

-- A space, a slash and a letter of two bytes.
abbrev part : Text
part = b'a' ∷ b' ' ∷ b'/' ∷ 195 ∷ 169 ∷ []

unquote-quote_url_example : unquote plain (quote_url b'/' part) ≡ some (seen b'/' part)
unquote-quote_url_example =
    unquote-quote_url b'/' part (λ e. omega (arith, e))
      (omega arith, (omega arith, (omega arith, (omega arith, (omega arith, tt)))))

part-quoted : quote_url b'/' part ≡ codes "a%20/%FFFFFFC3%FFFFFFA9"
unfolding quote_url
part-quoted = refl

-- A parser that takes every text for itself.
abbrev texts : UrlParser Text
texts = record {
  parse = λ s. s;
  possibly_invalid_spec = λ s. s;
  is_valid = λ s. true;
  spec = λ s. s;
}

-- A byte as it is, and a text after its length.
abbrev store : UrlStore
store = record {
  write_byte = λ b. b ∷ [];
  write_text = λ t. length t ∷ t;
  read_byte = λ s. elim s [ [] ↦ none | b ∷ r ↦ some (b, r) ];
  read_text = λ s. elim s [ [] ↦ none | n ∷ r ↦ some (take n r, drop n r) ];
}

store-ReadsBytes : ReadsBytes store
store-ReadsBytes = record { read-write = λ b rest. refl }

scheme-added : init_url texts (codes "a.b") ≡ codes "http://a.b"
unfolding init_url
scheme-added = refl
