-- ===== src/Json/Characters.antt =====
-- types/json_printing.cc: what `writeStringUtf8` writes for a character with `writeUtf8` set.
use soa.Prelude.{
  ℕ, zero, suc, ◌+◌, ◌<◌, ◌≤◌, ◌≡◌, ◌⊎◌, inl, inr, refl, sym, ap, subst, ◌∙◌, Bool, true, false,
  Bool-cases, not, ◌&&◌, ◌||◌, Option, none, some, List, [], ◌∷◌, ◌++◌, length, All, Outcome, ok,
  err, ltb, ◌==◌, if-elim, arith,
}
use soa.Json.{Bytes, Writers, JsonFault, is_plain, write_char}
use soa.Json.Reading.{read_escape, read_char, push, read_string}
use soa.Json.Strings.{Reads, plain-Reads, short-Reads, self-Reads, read_string-step}

-- UTF-8 gives a byte for a character of 7 bits, and bytes with their first bit set for another.
pub record IsUtf8 (w : Writers) : Type 0 where
  pub low : (c : ℕ) → c < 128 → w.append_utf8 c ≡ c ∷ []
  pub high : (c : ℕ) → 128 ≤ c → All (λ b. 128 ≤ b) (w.append_utf8 c)

-- A control character for which there is no short escape.
abbrev pub is_bare : ℕ → Bool
is_bare c =
    ltb c 32 && not (c == 9) && not (c == 10) && not (c == 13) && not (c == 8) && not (c == 12)

abbrev pub any_bare : List ℕ → Bool
any_bare [] = false
any_bare (c ∷ cs) = is_bare c || any_bare cs

abbrev pub utf8 : Writers → List ℕ → Bytes
utf8 w [] = []
utf8 w (c ∷ cs) = w.append_utf8 c ++ utf8 w cs

-- A unit of fuel for each byte, and some more.
abbrev pub after : Bytes → ℕ → ℕ
after [] n = n
after (b ∷ bs) n = suc (after bs n)

pub after-append : (s t : Bytes) (n : ℕ) → after (s ++ t) n ≡ after s (after t n)
after-append [] t n = refl
after-append (b ∷ bs) t n = ap suc (after-append bs t n)

pub after-length : (s : Bytes) (n : ℕ) → after s n ≡ length s + n
after-length [] n = omega arith
after-length (b ∷ bs) n = let ih = after-length bs n in omega (arith, ih)

abbrev pub push_all : Bytes → Option (List ℕ × Bytes) → Option (List ℕ × Bytes)
push_all t none = none
push_all t (some (cs, r)) = some (t ++ cs, r)

push-push_all :
    (b : ℕ) (bs : Bytes) (o : Option (List ℕ × Bytes))
    → push b (push_all bs o) ≡ push_all (b ∷ bs) o
push-push_all b bs none = refl
push-push_all b bs (some (cs, r)) = refl

push_all-none : (o : Option (List ℕ × Bytes)) → push_all [] o ≡ o
push_all-none none = refl
push_all-none (some (cs, r)) = refl

high-Reads : (b : ℕ) (r : Bytes) → 128 ≤ b → Reads (ok (b ∷ [])) b r
unfolding read_char
high-Reads b r h = ground (arith, h)

read_string-high :
    (n : ℕ) (bs r : Bytes)
    → All (λ b. 128 ≤ b) bs
    → read_string (after bs n) (bs ++ r) ≡ push_all bs (read_string n r)
read_string-high n [] r h = sym (push_all-none (read_string n r))
read_string-high n (b ∷ bs) r h =
    read_string-step (after bs n) b (b ∷ []) (bs ++ r) (high-Reads b (bs ++ r) h.0)
    ∙ ap (push b) (read_string-high n bs r h.1)
    ∙ push-push_all b bs (read_string n r)

module _ (w : Writers) (laws : IsUtf8 w) where
  -- How what is written for a character is read: not at all, or as the bytes of the character.
  abbrev pub Writes : Outcome JsonFault Bytes → ℕ → Type 0
  Writes (err e) c = ⊥
  Writes (ok t) c =
      ((is_bare c ≡ true) × ((n : ℕ) (r : Bytes) → read_string n (t ++ r) ≡ none))
      ⊎ ((is_bare c ≡ false)
          × ((n : ℕ) (r : Bytes)
              → read_string (after (w.append_utf8 c) n) (t ++ r)
                ≡ push_all (w.append_utf8 c) (read_string n r)))

  low-Writes :
      (c : ℕ) (t : Bytes)
      → c < 128
      → is_bare c ≡ false
      → ((r : Bytes) → Reads (ok t) c r)
      → Writes (ok t) c
  low-Writes c t h e reads =
      rw (laws.low c h)
        (inr (e, λ n r. read_string-step n c t r (reads r) ∙ one c (read_string n r)))
    where
      one : (c : ℕ) (o : Option (List ℕ × Bytes)) → push c o ≡ push_all (c ∷ []) o
      one c none = refl
      one c (some (cs, r)) = refl

  bare_stops : (c n : ℕ) (r : Bytes) → is_bare c ≡ true → read_string n (c ∷ r) ≡ none
  unfolding read_string read_char
  bare_stops c zero r h = refl
  bare_stops c (suc n) r h = ground (arith, h)

  self_read :
      (c : ℕ) (r : Bytes)
      → 32 ≤ c
      → (c == b'/' || c == b'\\' || c == b'"') ≡ false
      → Reads (ok (c ∷ [])) c r
  unfolding read_char
  self_read c r h other = ground (arith, h, other)

  low_default :
      (c : ℕ)
      → c < 128
      → 32 ≤ c
      → (c == b'/' || c == b'\\' || c == b'"') ≡ false
      → Writes (ok (w.append_utf8 c)) c
  low_default c h k other =
      let written = laws.low c h in
      subst (λ t. Writes (ok t) c) (sym written)
        (low-Writes c (c ∷ []) h (ground (arith, k)) (λ r. self_read c r k other))

  pub write_char-Writes : (c : ℕ) → Writes (write_char w true c) c
  unfolding read_char read_escape
  write_char-Writes c =
      let P = λ (o : Outcome JsonFault Bytes). Writes o c in
      if-elim P (is_plain c) _ _
        (λ e.
          low-Writes c (c ∷ []) (ground (arith, e)) (ground (arith, e)) (λ r. plain-Reads c r e))
        (λ _.
          if-elim P (c == 9) _ _
            (λ e. short c 9 b't' (ground (arith, e)) (ground (arith, e)) e (λ r. refl))
            (λ f9.
              if-elim P (c == 10) _ _
                (λ e. short c 10 b'n' (ground (arith, e)) (ground (arith, e)) e (λ r. refl))
                (λ f10.
                  if-elim P (c == 13) _ _
                    (λ e. short c 13 b'r' (ground (arith, e)) (ground (arith, e)) e (λ r. refl))
                    (λ f13.
                      if-elim P (c == 8) _ _
                        (λ e. short c 8 b'b' (ground (arith, e)) (ground (arith, e)) e (λ r. refl))
                        (λ f8.
                          if-elim P (c == 12) _ _
                            (λ e.
                              short c 12 b'f' (ground (arith, e)) (ground (arith, e)) e (λ r. refl))
                            (λ f12.
                              if-elim P (c == b'/' || c == b'\\' || c == b'"') _ _
                                (λ e.
                                  low-Writes c (b'\\' ∷ c ∷ []) (ground (arith, e))
                                    (ground (arith, e)) (λ r. self-Reads c r e))
                                (λ other. elim (Bool-cases (ltb c 32)) [
                                  | inl control ↦ rw (laws.low c (ground (arith, control))) (
                                      inl (
                                        ground (arith, control, f9, f10, f13, f8, f12),
                                        λ n r.
                                            bare_stops c n r
                                              (ground (arith, control, f9, f10, f13, f8, f12)),
                                      ))
                                  | inr above ↦ elim (Bool-cases (ltb c 128)) [
                                    | inl below ↦
                                        low_default c (ground (arith, below))
                                          (ground (arith, above)) other
                                    | inr beyond ↦ inr (
                                      ground (arith, above),
                                      λ n r.
                                          read_string-high n (w.append_utf8 c) r
                                            (laws.high c (ground (arith, beyond))),
                                    )
                                  ]
                                ])))))))
    where
      short :
          (c d e : ℕ)
          → c < 128
          → is_bare c ≡ false
          → (c == d) ≡ true
          → ((r : Bytes) → read_char (b'\\' ∷ e ∷ r) ≡ some (d, r))
          → Writes (ok (b'\\' ∷ e ∷ [])) c
      short c d e h k same reads =
          low-Writes c (b'\\' ∷ e ∷ []) h k (λ r. short-Reads c d e r same (reads r))
