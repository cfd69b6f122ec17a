-- ===== src/Urls/Stored.antt =====
-- `serialize` and `reconstitute` of types/url.cc.
use soa.Prelude.{ℕ, ◌≡◌, refl, ap, ◌∙◌, some, ◌++◌}
use soa.Urls.{Text, UrlParser, Url, make_url, UrlStore, serialize_url, reconstitute_url}
use mathlib.Core.List.{append_assoc}

-- The store reads the bytes that it has written.
pub record ReadsBytes (st : UrlStore) : Type 0 where
  pub read-write : (b : ℕ) (rest : Text) → st.read_byte (st.write_byte b ++ rest) ≡ some (b, rest)

-- Reading what was written for a URL gives the URL that there was before with its own text, whatever was
-- written, and leaves the written text in the store for whoever reads next.
pub reconstitute_url-serialize_url :
    {G : Type 0} (p : UrlParser G) (st : UrlStore) (u v : Url G) (rest : Text)
    → ReadsBytes st
    → reconstitute_url p st v (serialize_url p st u ++ rest)
      ≡ some (make_url p v.original, st.write_text u.original ++ rest)
unfolding reconstitute_url serialize_url
reconstitute_url-serialize_url p st u v rest laws =
    let bytes = append_assoc (st.write_byte 0) (st.write_text u.original) rest in
    let read = ap st.read_byte bytes ∙ laws.read-write 0 (st.write_text u.original ++ rest) in
    rw (read, reconstitute_url) refl
