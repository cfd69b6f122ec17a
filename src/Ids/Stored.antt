-- ===== src/Ids/Stored.antt =====
-- types/id.cc: `reconstitute` reads what `serialize` has written.
use mathlib.Core.List.{append_assoc}
use soa.Prelude.{ℕ, zero, suc, ◌+◌, ◌^◌, ◌<◌, ◌≤◌, ◌≡◌, refl, sym, ap, List, [], ◌++◌, ok, arith}
use soa.Ids.{
  Kind, unknown, none_id, null_id, uuid, goog128, bigdec, base64_96, hex128lc, int64dec, uuid_caps,
  str, compound2, Ident, simple, string, compound, val1, val2, two_halves, kind_code, Result,
}
use soa.Ids.Store.{
  Format, IsExact, load_header, load_halves, load_kind, reconstitute, serialize, save_simple,
  kind_at,
}

-- What the number of an identifier of a kind is below. The kinds that have no number of their own have
-- no room.
abbrev pub room : Kind → ℕ
room none_id = 1
room null_id = 1
room uuid = 2 ^ 128
room goog128 = 2 ^ 128
room bigdec = 2 ^ 128
room base64_96 = 2 ^ 96
room hex128lc = 2 ^ 128
room uuid_caps = 2 ^ 128
room int64dec = 0
room str = 0
room compound2 = 0
room unknown = 0

-- The numbers of an identifier fit its kinds.
abbrev pub IsStorable : Ident → Type 0
IsStorable (simple k v) = v < room k
IsStorable (string s) = Unit
IsStorable (compound a b) = IsStorable a × IsStorable b

abbrev pub depth : Ident → ℕ
depth (simple k v) = 1
depth (string s) = 1
depth (compound a b) = 1 + (depth a + depth b)

module _ (st : Format) (exact : IsExact st) where
  load_header-save :
      (c : ℕ) (bytes rest : List ℕ)
      → c < 256
      → load_header st ((st.save_char 1 ++ (st.save_char c ++ bytes)) ++ rest)
        ≡ ok (kind_at c, bytes ++ rest)
  load_header-save c bytes rest h =
      rw
        (
          append_assoc (st.save_char 1) (st.save_char c ++ bytes) rest,
          append_assoc (st.save_char c) bytes rest,
          exact.char 1 (st.save_char c ++ (bytes ++ rest)) (omega arith),
          exact.char c (bytes ++ rest) h,
        )
        refl

  load_halves-save :
      (k : Kind) (n v : ℕ) (rest : List ℕ)
      → val2 v < 256 ^ n
      → two_halves (val1 v) (val2 v) ≡ v
      → load_halves st k n ((st.save_binary 8 (val1 v) ++ st.save_binary n (val2 v)) ++ rest)
        ≡ ok (simple k v, rest)
  unfolding load_halves
  load_halves-save k n v rest h same =
      rw
        (
          append_assoc (st.save_binary 8 (val1 v)) (st.save_binary n (val2 v)) rest,
          exact.binary 8 (val1 v) (st.save_binary n (val2 v) ++ rest) (omega arith),
          exact.binary n (val2 v) rest h,
          same,
        )
        refl

  -- What is behind the header of an identifier with a number is read as that number.
  abbrev Reads : Kind → ℕ → Type 0
  Reads k v =
      (bytes : List ℕ) × (save_simple st k v ≡ ok bytes)
      × (kind_at (kind_code k) ≡ k)
      × (kind_code k < 256)
      × ((load_part : List ℕ → Result (Ident × List ℕ)) (rest : List ℕ)
          → load_kind st load_part k (bytes ++ rest) ≡ ok (simple k v, rest))

  wide : (v : ℕ) → v < 2 ^ 128 → (val2 v < 256 ^ 8) × (two_halves (val1 v) (val2 v) ≡ v)
  wide v h = (omega arith, omega (arith, h))

  load_kind-save : (k : Kind) (v : ℕ) → v < room k → Reads k v
  unfolding load_kind save_simple kind_at
  load_kind-save none_id v h =
      let e : v ≡ 0 = omega (arith, h) in
      ([], refl, refl, omega arith, λ p rest. ap (λ w. ok (simple none_id w, rest)) (sym e))
  load_kind-save null_id v h =
      let e : v ≡ 0 = omega (arith, h) in
      ([], refl, refl, omega arith, λ p rest. ap (λ w. ok (simple null_id w, rest)) (sym e))
  load_kind-save uuid v h = (
    _,
    refl,
    refl,
    omega arith,
    λ p rest. load_halves-save uuid 8 v rest (wide v h).0 (wide v h).1,
  )
  load_kind-save uuid_caps v h = (
    _,
    refl,
    refl,
    omega arith,
    λ p rest. load_halves-save uuid_caps 8 v rest (wide v h).0 (wide v h).1,
  )
  load_kind-save goog128 v h = (
    _,
    refl,
    refl,
    omega arith,
    λ p rest. load_halves-save goog128 8 v rest (wide v h).0 (wide v h).1,
  )
  load_kind-save bigdec v h = (
    _,
    refl,
    refl,
    omega arith,
    λ p rest. load_halves-save bigdec 8 v rest (wide v h).0 (wide v h).1,
  )
  load_kind-save hex128lc v h = (
    _,
    refl,
    refl,
    omega arith,
    λ p rest. load_halves-save hex128lc 8 v rest (wide v h).0 (wide v h).1,
  )
  load_kind-save base64_96 v h = (
    _,
    refl,
    refl,
    omega arith,
    λ p rest. load_halves-save base64_96 4 v rest (omega (arith, h)) (omega (arith, h)),
  )
  load_kind-save int64dec v h = absurd (omega (arith, h))
  load_kind-save str v h = absurd (omega (arith, h))
  load_kind-save compound2 v h = absurd (omega (arith, h))
  load_kind-save unknown v h = absurd (omega (arith, h))

  abbrev Restores : Ident → List ℕ → Type 0
  Restores r bytes =
      (fuel : ℕ) (rest : List ℕ)
      → depth r ≤ fuel
      → reconstitute st fuel (bytes ++ rest) ≡ ok (r, rest)

  after_header :
      (c fuel : ℕ) (bytes rest : List ℕ) (r : Ident)
      → c < 256
      → load_kind st (λ b. reconstitute st fuel b) (kind_at c) (bytes ++ rest) ≡ ok (r, rest)
      → reconstitute st (suc fuel) ((st.save_char 1 ++ (st.save_char c ++ bytes)) ++ rest)
        ≡ ok (r, rest)
  unfolding reconstitute
  after_header c fuel bytes rest r h loaded = rw (load_header-save c bytes rest h) loaded

  simple-Restores :
      (k : Kind) (v : ℕ) (bytes : List ℕ)
      → kind_at (kind_code k) ≡ k
      → kind_code k < 256
      → ((load_part : List ℕ → Result (Ident × List ℕ)) (rest : List ℕ)
          → load_kind st load_part k (bytes ++ rest) ≡ ok (simple k v, rest))
      → Restores (simple k v) (st.save_char 1 ++ (st.save_char (kind_code k) ++ bytes))
  simple-Restores k v bytes code small loaded zero rest h = ground arith
  simple-Restores k v bytes code small loaded (suc fuel) rest h =
      after_header (kind_code k) fuel bytes rest (simple k v) small (rw code (loaded _ rest))

  string-Restores :
      (s : List ℕ) → Restores (string s) (st.save_char 1 ++ (st.save_char 192 ++ st.save_string s))
  unfolding load_kind kind_at
  string-Restores s zero rest h = ground arith
  string-Restores s (suc fuel) rest h =
      after_header 192 fuel (st.save_string s) rest (string s) (omega arith)
        (rw (exact.text s rest) refl)

  compound-Restores :
      (a b : Ident) (s t : List ℕ)
      → Restores a s
      → Restores b t
      → Restores (compound a b) (st.save_char 1 ++ (st.save_char 193 ++ (s ++ t)))
  unfolding load_kind kind_at
  compound-Restores a b s t ha hb zero rest h = ground arith
  compound-Restores a b s t ha hb (suc fuel) rest h =
      after_header 193 fuel (s ++ t) rest (compound a b) (omega arith) (
        rw
          (
            append_assoc s t rest,
            ha fuel (t ++ rest) (omega (arith, h)),
            hb fuel rest (omega (arith, h)),
          )
          refl)

  serialize-Restores :
      (r : Ident) → IsStorable r → (bytes : List ℕ) × (serialize st r ≡ ok bytes) × Restores r bytes
  unfolding serialize
  serialize-Restores (simple k v) h =
      let (bytes, saved, code, small, loaded) = load_kind-save k v h in
      (_, rw saved refl, simple-Restores k v bytes code small loaded)
  serialize-Restores (string s) h = (_, refl, string-Restores s)
  serialize-Restores (compound a b) (h, l) =
      let (s, saved, restored) = serialize-Restores a h in
      let (t, kept, again) = serialize-Restores b l in
      (_, rw (saved, kept) refl, compound-Restores a b s t restored again)

  -- Where the store reads what it writes, an identifier whose numbers fit their kinds is serialized
  -- without an exception, and reconstitute, with fuel for each part, makes the same identifier of these
  -- bytes and leaves what follows them.
  pub reconstitute-serialize :
      (r : Ident) (fuel : ℕ) (rest : List ℕ)
      → IsStorable r
      → depth r ≤ fuel
      → (bytes : List ℕ) × (serialize st r ≡ ok bytes)
        × (reconstitute st fuel (bytes ++ rest) ≡ ok (r, rest))
  reconstitute-serialize r fuel rest h enough =
      let (bytes, saved, restored) = serialize-Restores r h in
      (bytes, saved, restored fuel rest enough)
