-- ===== src/Json/Controls.antt =====
-- types/json_printing.cc: what `writeStringUtf8` writes with `writeUtf8` set.
use mathlib.Core.List.{append_assoc}
use soa.Prelude.{
  ℕ, suc, ◌+◌, ◌≡◌, inl, inr, refl, sym, ap, ◌∙◌, Bool, true, false, ◌||◌, Option, none, some, List,
  [], ◌∷◌, ◌++◌, length, Outcome, ok, err, ◌>>=◌, if◌then◌else◌,
}
use soa.Json.{Bytes, Writers, JsonFault, write_char, write_chars, write_string_utf8, quoted}
use soa.Json.Reading.{read_string}
use soa.Json.Characters.{
  IsUtf8, any_bare, utf8, after, after-append, after-length, push_all, Writes, write_char-Writes,
}

module _ (w : Writers) (laws : IsUtf8 w) where
  Writes-cases :
      (o : Outcome JsonFault Bytes) (c : ℕ)
      → Writes w laws o c
      → (t : Bytes) × (o ≡ ok t) × Writes w laws (ok t) c
  Writes-cases (ok t) c h = (t, refl, h)
  Writes-cases (err e) c h = absurd h

  abbrev expected : List ℕ → Bytes → Option (List ℕ × Bytes)
  expected s rest = if any_bare s then none else some (utf8 w s, rest)

  read_one :
      (c : ℕ) (cs : List ℕ) (t u rest : Bytes) (n : ℕ)
      → Writes w laws (ok t) c
      → read_string (after (utf8 w cs) n) u ≡ expected cs rest
      → read_string (after (utf8 w (c ∷ cs)) n) (t ++ u) ≡ expected (c ∷ cs) rest
  read_one c cs t u rest n (inl (bare, stops)) ih =
      stops (after (utf8 w (c ∷ cs)) n) u
      ∙ sym (ap (λ b. if b || any_bare cs then none else some (utf8 w (c ∷ cs), rest)) bare)
  read_one c cs t u rest n (inr (fine, reads)) ih =
      ap (λ k. read_string k (t ++ u)) (after-append (w.append_utf8 c) (utf8 w cs) n)
      ∙ reads (after (utf8 w cs) n) u
      ∙ ap (push_all (w.append_utf8 c)) ih
      ∙ pushed (any_bare cs)
      ∙ sym (ap (λ b. if b || any_bare cs then none else some (utf8 w (c ∷ cs), rest)) fine)
    where
      pushed :
          (b : Bool)
          → push_all (w.append_utf8 c) (if b then none else some (utf8 w cs, rest))
            ≡ (if b then none else some (utf8 w (c ∷ cs), rest))
      pushed true = refl
      pushed false = refl

  read_chars :
      (s : List ℕ) (rest : Bytes) (extra : ℕ)
      → (t : Bytes) × (write_chars w true s ≡ ok t)
        × (read_string (after (utf8 w s) (suc extra)) (t ++ (b'"' ∷ rest)) ≡ expected s rest)
  unfolding write_chars read_string
  read_chars [] rest extra = ([], refl, refl)
  read_chars (c ∷ cs) rest extra =
      let (u, e, f) = read_chars cs rest extra in
      let (t, d, writes) = Writes-cases (write_char w true c) c (write_char-Writes w laws c) in
      (
        t ++ u,
        rw (d, e) refl,
        ap (read_string (after (utf8 w (c ∷ cs)) (suc extra))) (append_assoc t u (b'"' ∷ rest))
            ∙ read_one c cs t (u ++ (b'"' ∷ rest)) rest (suc extra) writes f,
      )

  -- With writeUtf8 set and an encoder of UTF-8, writeStringUtf8 throws nothing, and what it writes is a
  -- quote and a text that a reader of JSON strings with a unit of fuel for each byte and one at least more
  -- takes for the UTF-8 of the characters, up to its closing quote, where no control character but a tab,
  -- newline, return, backspace or form feed is among them; where one is, the reader refuses the text.
  pub read_string-utf8 :
      (s : List ℕ) (rest : Bytes) (extra : ℕ)
      → (t : Bytes) × (write_string_utf8 w true s ≡ ok (b'"' ∷ t))
        × (read_string (length (utf8 w s) + suc extra) (t ++ rest)
            ≡ (if any_bare s then none else some (utf8 w s, rest)))
  read_string-utf8 s rest extra =
      let (t, e, f) = read_chars s rest extra in
      (
        t ++ (b'"' ∷ []),
        ap (λ x. x >>= λ u. ok (quoted u)) e,
        ap (λ k. read_string k ((t ++ (b'"' ∷ [])) ++ rest))
              (sym (after-length (utf8 w s) (suc extra)))
            ∙ ap (read_string (after (utf8 w s) (suc extra))) (append_assoc t (b'"' ∷ []) rest)
            ∙ f,
      )
