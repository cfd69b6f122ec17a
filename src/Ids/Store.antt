-- ===== src/Ids/Store.antt =====
-- types/id.cc: `serialize` and `reconstitute`. The store belongs to another
-- library, and is a parameter.
use soa.Prelude.{
  ℕ, zero, suc, ◌^◌, List, [], ◌++◌, ok, err, ◌>>=◌, ◌>>◌, check, leb, ◌<◌, ◌≡◌, ◌==◌,
  if◌then◌else◌,
}
use soa.Ids.{
  Kind, unknown, none_id, null_id, uuid, goog128, bigdec, base64_96, hex128lc, int64dec, uuid_caps,
  str, compound2, Ident, simple, string, compound, unknown_type, bad_version, end_of_store, Result,
  val1, val2, two_halves, kind_code,
}

-- The store that identifiers are written to and read from: `<<` and `>>` of a char and of a string,
-- `>>` of an int, `save_binary` and `load_binary`.
pub record Format : Type 0 where
  pub save_char : ℕ → List ℕ
  pub load_char : List ℕ → Result (ℕ × List ℕ)
  pub save_binary : ℕ → ℕ → List ℕ
  pub load_binary : ℕ → List ℕ → Result (ℕ × List ℕ)
  pub save_string : List ℕ → List ℕ
  pub load_string : List ℕ → Result (List ℕ × List ℕ)
  pub load_int : List ℕ → Result (ℕ × List ℕ)

-- What is written is read again, and no more than that.
pub record IsExact (st : Format) : Type 0 where
  pub char :
      (c : ℕ) (rest : List ℕ) → c < 256 → st.load_char (st.save_char c ++ rest) ≡ ok (c, rest)
  pub binary :
      (n v : ℕ) (rest : List ℕ)
      → v < 256 ^ n
      → st.load_binary n (st.save_binary n v ++ rest) ≡ ok (v, rest)
  pub text : (s rest : List ℕ) → st.load_string (st.save_string s ++ rest) ≡ ok (s, rest)

-- The bytes behind the header of an identifier that is one number.
unfoldable pub save_simple : Format → Kind → ℕ → Result (List ℕ)
save_simple st none_id v = ok []
save_simple st null_id v = ok []
save_simple st uuid v = ok (st.save_binary 8 (val1 v) ++ st.save_binary 8 (val2 v))
save_simple st uuid_caps v = ok (st.save_binary 8 (val1 v) ++ st.save_binary 8 (val2 v))
save_simple st goog128 v = ok (st.save_binary 8 (val1 v) ++ st.save_binary 8 (val2 v))
save_simple st bigdec v = ok (st.save_binary 8 (val1 v) ++ st.save_binary 8 (val2 v))
save_simple st base64_96 v = ok (st.save_binary 8 (val1 v) ++ st.save_binary 4 (val2 v))
save_simple st hex128lc v = ok (st.save_binary 8 (val1 v) ++ st.save_binary 8 (val2 v))
save_simple st int64dec v = err unknown_type
save_simple st str v = err unknown_type
save_simple st compound2 v = err unknown_type
save_simple st unknown v = err unknown_type

-- `val1`, and then `val2` of n bytes.
unfoldable pub load_halves : Format → Kind → ℕ → List ℕ → Result (Ident × List ℕ)
load_halves st k n bytes = st.load_binary 8 bytes >>= λ a.
    st.load_binary n a.1 >>= λ b. ok (simple k (two_halves a.0 b.0), b.1)

-- The kind for a number of the source's enumeration, where it has one.
unfoldable pub kind_at : ℕ → Kind
kind_at c =
    if c == 0
    then none_id
    else if c == 1
    then null_id
    else if c == 2
    then uuid
    else if c == 3
    then goog128
    else if c == 4
    then bigdec
    else if c == 5
    then base64_96
    else if c == 6
    then hex128lc
    else if c == 7
    then int64dec
    else if c == 8
    then uuid_caps
    else if c == 192
    then str
    else if c == 193
    then compound2
    else unknown

-- What is behind the byte of the type: a store of version 0 has another field there, which is dropped.
abbrev pub load_domain : Format → ℕ → ℕ → List ℕ → Result (Kind × List ℕ)
load_domain st version tp bytes =
    if version == 0
    then (st.load_int bytes >>= λ d. ok (if tp == 5 then str else kind_at tp, d.1))
    else ok (kind_at tp, bytes)

abbrev pub load_header : Format → List ℕ → Result (Kind × List ℕ)
load_header st bytes = st.load_char bytes >>= λ v.
    check (leb v.0 1) bad_version >> (st.load_char v.1 >>= λ tp. load_domain st v.0 tp.0 tp.1)

unfoldable pub serialize : Format → Ident → Result (List ℕ)
unfolding save_simple
serialize st (simple k v) =
    save_simple st k v >>= λ bytes. ok (st.save_char 1 ++ (st.save_char (kind_code k) ++ bytes))
serialize st (string s) = ok (st.save_char 1 ++ (st.save_char 192 ++ st.save_string s))
serialize st (compound a b) = serialize st a >>= λ s.
    serialize st b >>= λ t. ok (st.save_char 1 ++ (st.save_char 193 ++ (s ++ t)))

-- What is read for a kind. Parts are read with `>>`, which is reconstitute.
unfoldable pub load_kind :
    Format → (List ℕ → Result (Ident × List ℕ)) → Kind → List ℕ → Result (Ident × List ℕ)
unfolding load_halves
load_kind st load_part none_id bytes = ok (simple none_id 0, bytes)
load_kind st load_part null_id bytes = ok (simple null_id 0, bytes)
load_kind st load_part uuid bytes = load_halves st uuid 8 bytes
load_kind st load_part uuid_caps bytes = load_halves st uuid_caps 8 bytes
load_kind st load_part goog128 bytes = load_halves st goog128 8 bytes
load_kind st load_part bigdec bytes = load_halves st bigdec 8 bytes
load_kind st load_part int64dec bytes = st.load_binary 8 bytes >>= λ r. ok (simple bigdec r.0, r.1)
load_kind st load_part base64_96 bytes = load_halves st base64_96 4 bytes
load_kind st load_part hex128lc bytes = load_halves st hex128lc 8 bytes
load_kind st load_part str bytes = st.load_string bytes >>= λ r. ok (string r.0, r.1)
load_kind st load_part compound2 bytes =
    load_part bytes >>= λ a. load_part a.1 >>= λ b. ok (compound a.0 b.0, b.1)
load_kind st load_part unknown bytes = err unknown_type

-- Each identifier that is part of another takes a unit of fuel.
unfoldable pub reconstitute : Format → ℕ → List ℕ → Result (Ident × List ℕ)
unfolding load_kind kind_at
reconstitute st zero bytes = err end_of_store
reconstitute st (suc fuel) bytes =
    load_header st bytes >>= λ h. load_kind st (λ rest. reconstitute st fuel rest) h.0 h.1
