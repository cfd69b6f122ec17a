-- ===== src/Http/Progress.antt =====
-- The fuel of the loops of `feed` suffices.
use soa.Prelude.{
  ℕ, zero, suc, ◌<◌, ◌≤◌, Bool, true, false, Bool-cases, inl, inr, not, ◌&&◌, ◌||◌, Option, none,
  some, List, [], ◌∷◌, ◌++◌, ok, err, ◌>>=◌, length, drop, ltb, arith, ◌==◌, if◌then◌else◌,
}
use soa.Http.{
  out_of_fuel, on_header, unexpected_end_of_line, expected_lf, bad_version, version_too_long,
  code_too_long, bad_number, over_read, Parser, Run, Result, commit, emit, upto,
}
use soa.Http.Lines.{cr, lf, skip_to_char, found, peek}
use soa.Http.Headers.{
  end_of_header, match_string, connection, content_length, transfer_encoding, parse_lines,
  handle_header, read_header, read_value, blank_line,
}

-- A result that did not run out of fuel, with what holds of its value.
abbrev pub Bound : {A : Type 0} → (A → Type 0) → Result A → Type 0
Bound P (ok a) = P a
Bound P (err out_of_fuel) = ⊥
Bound P (err _) = Unit

pub Bound-bind :
    {A B : Type 0} (P : A → Type 0) (Q : B → Type 0) (x : Result A) (f : A → Result B)
    → Bound P x
    → ((a : A) → P a → Bound Q (f a))
    → Bound Q (x >>= f)
Bound-bind P Q (ok a) f h k = k a h
Bound-bind P Q (err out_of_fuel) f h k = absurd h
Bound-bind P Q (err unexpected_end_of_line) f h k = tt
Bound-bind P Q (err expected_lf) f h k = tt
Bound-bind P Q (err bad_version) f h k = tt
Bound-bind P Q (err version_too_long) f h k = tt
Bound-bind P Q (err code_too_long) f h k = tt
Bound-bind P Q (err bad_number) f h k = tt
Bound-bind P Q (err over_read) f h k = tt

pub Bound-weaken :
    {A : Type 0} (P Q : A → Type 0) (x : Result A) → Bound P x → ((a : A) → P a → Q a) → Bound Q x
Bound-weaken P Q (ok a) h k = k a h
Bound-weaken P Q (err out_of_fuel) h k = absurd h
Bound-weaken P Q (err unexpected_end_of_line) h k = tt
Bound-weaken P Q (err expected_lf) h k = tt
Bound-weaken P Q (err bad_version) h k = tt
Bound-weaken P Q (err version_too_long) h k = tt
Bound-weaken P Q (err code_too_long) h k = tt
Bound-weaken P Q (err bad_number) h k = tt
Bound-weaken P Q (err over_read) h k = tt

abbrev pub Any : {A : Type 0} → A → Type 0
Any a = Unit

-- Where a stage is done, it has taken a byte at least of n.
abbrev pub Taken : ℕ → Bool × Run → Type 0
Taken n (true, s) = length s.rest < n
Taken n (false, s) = Unit

abbrev pub Within : ℕ → Option (List ℕ) → Type 0
Within n none = Unit
Within n (some r) = length r ≤ n

pub Taken-weaken : (m n : ℕ) (r : Bool × Run) → m ≤ n → Taken m r → Taken n r
Taken-weaken m n (true, s) h t = omega (arith, t)
Taken-weaken m n (false, s) h t = tt

pub skip_to_char-Within :
    (c : ℕ) (eol : Bool) (xs : List ℕ) → Bound (Within (length xs)) (skip_to_char c eol xs)
unfolding skip_to_char
skip_to_char-Within c eol [] = tt
skip_to_char-Within c eol (x ∷ xs) = elim (Bool-cases (x == c)) [
  | inl here ↦ rw here (omega arith)
  | inr other ↦ elim (Bool-cases (eol && (x == cr || x == lf))) [
    | inl end ↦ rw (other, end) tt
    | inr inside ↦
        rw (other, inside)
          (Bound-weaken (Within (length xs)) (Within (suc (length xs))) (skip_to_char c eol xs)
            (skip_to_char-Within c eol xs) later)
  ]
]
  where
    later : (o : Option (List ℕ)) → Within (length xs) o → Within (suc (length xs)) o
    later none h = tt
    later (some r) h = omega (arith, h)

pub length-drop_le : (n : ℕ) (xs : List ℕ) → length (drop n xs) ≤ length xs
length-drop_le zero xs = omega arith
length-drop_le (suc n) [] = omega arith
length-drop_le (suc n) (x ∷ xs) = omega (arith, length-drop_le n xs)

-- The rest of a parse function behind `skipToChar`.
pub found-Bound :
    {A : Type 0} (Q : A → Type 0) (n : ℕ) (x : Result (Option (List ℕ))) (more : Result A)
    (next : List ℕ → Result A)
    → Bound (Within n) x
    → Bound Q more
    → ((r : List ℕ) → length r ≤ n → Bound Q (next r))
    → Bound Q (x >>= found more next)
found-Bound {A} Q n x more next h k l = Bound-bind (Within n) Q x (found more next) h cases
  where
    cases : (o : Option (List ℕ)) → Within n o → Bound Q (found more next o)
    cases none w = k
    cases (some r) w = l r w

end_of_header-Bound :
    {A : Type 0} (Q : A → Type 0) (more : Result A) (continued complete : List ℕ → Result A)
    (r : List ℕ)
    → Bound Q more
    → ((after : List ℕ) → length after < length r → Bound Q (continued after))
    → ((next : List ℕ) → length next < length r → Bound Q (complete next))
    → Bound Q (end_of_header more continued complete r)
end_of_header-Bound Q more continued complete [] h k l = h
end_of_header-Bound Q more continued complete (x ∷ []) h k l = h
end_of_header-Bound Q more continued complete (x ∷ y ∷ []) h k l = h
end_of_header-Bound Q more continued complete (x ∷ y ∷ z ∷ after) h k l =
    elim (Bool-cases (y == lf)) [
      | inr other ↦ rw other tt
      | inl same ↦ elim (Bool-cases (z == 32 || z == 9)) [
        | inl blank ↦ rw (same, blank) (k after (omega arith))
        | inr filled ↦ rw (same, filled) (l (z ∷ after) (omega arith))
      ]
    ]

peek-Bound : (from_buffer : Bool) (r : List ℕ) → Bound Any (peek from_buffer r)
peek-Bound true [] = tt
peek-Bound false [] = tt
peek-Bound b (x ∷ xs) = tt

blank_line-Taken : (s : Run) → Bound (Taken (length s.rest)) (blank_line s)
unfolding blank_line
blank_line-Taken s = at s.rest
  where
    at :
        (r : List ℕ)
        → Bound (Taken (length r)) (elim (drop 1 r) [
          | [] ↦ ok (false, s)
          | x ∷ r' ↦
              if x == lf
              then ok (true, emit (on_header (cr ∷ lf ∷ [])) (commit r' s))
              else err expected_lf
        ])
    at [] = tt
    at (x ∷ []) = tt
    at (x ∷ y ∷ r) = elim (Bool-cases (y == lf)) [
      | inl same ↦ rw same (omega arith)
      | inr other ↦ rw other tt
    ]

-- `antoi` throws, or it gives a number.
module _ (antoi : ℕ → List ℕ → Result ℕ)
    (numbers : (radix : ℕ) (text : List ℕ) → Bound Any (antoi radix text)) where
  number_then : (text : List ℕ) (f : ℕ → Parser) → Bound Any (antoi 10 text >>= λ n. ok (f n))
  number_then text f =
      Bound-bind Any Any (antoi 10 text) (λ n. ok (f n)) (numbers 10 text) (λ n h. tt)

  read_value-Bound : (a b c : Option (List ℕ)) (p : Parser) → Bound Any (read_value antoi a b c p)
  unfolding read_value
  read_value-Bound (some r) b c p = ground arith
  read_value-Bound none (some r) c p = number_then _ _
  read_value-Bound none none (some r) p = ground arith
  read_value-Bound none none none p = tt

  handle_header-Bound : (line : List ℕ) (s : Run) → Bound Any (handle_header antoi line s)
  unfolding handle_header read_header
  handle_header-Bound line s =
      Bound-bind Any Any (read_header antoi line s.parser) _
        (read_value-Bound (match_string connection line) (match_string content_length line)
          (match_string transfer_encoding line) s.parser)
        (λ p h. tt)

  colon-Within :
      (b : Bool) (c : ℕ) (xs : List ℕ)
      → Bound (Within (length xs)) (if b then skip_to_char c true xs else ok (some xs))
  colon-Within true c xs = skip_to_char-Within c true xs
  colon-Within false c xs = omega arith

  Within-weaken : (m n : ℕ) (o : Option (List ℕ)) → m ≤ n → Within m o → Within n o
  Within-weaken m n none h w = tt
  Within-weaken m n (some r) h w = omega (arith, h, w)

  pub skip-Within :
      (n c : ℕ) (xs : List ℕ) → length xs ≤ n → Bound (Within n) (skip_to_char c false xs)
  skip-Within n c xs h =
      Bound-weaken (Within (length xs)) (Within n) (skip_to_char c false xs)
        (skip_to_char-Within c false xs) (λ o w. Within-weaken (length xs) n o h w)

  pub shorter : (m n : ℕ) (x : Result (Bool × Run)) → m ≤ n → Bound (Taken m) x → Bound (Taken n) x
  shorter m n x h b = Bound-weaken (Taken m) (Taken n) x b (λ q. Taken-weaken m n q h)

  abbrev line : ℕ → List ℕ → Run → List ℕ → List ℕ
  line num_lines multiline s next =
      if num_lines == 0 then upto s.rest next else multiline ++ upto s.rest next

  pub parse_lines-Taken :
      (fuel : ℕ) (multiline : List ℕ) (num_lines : ℕ) (s : Run)
      → length s.rest < fuel
      → Bound (Taken (length s.rest)) (parse_lines antoi fuel multiline num_lines s)
  unfolding parse_lines
  parse_lines-Taken zero multiline num_lines s h = absurd (omega (arith, h))
  parse_lines-Taken (suc fuel) multiline num_lines s h =
      let n = length s.rest in
      Bound-bind Any (Taken n) (peek s.from_buffer s.rest) _ (peek-Bound s.from_buffer s.rest)
        (λ c _. elim (Bool-cases (not (c == cr) || ltb 0 num_lines)) [
          | inr end ↦ rw end (blank_line-Taken s)
          | inl more ↦ rw more (
              found-Bound (Taken n) n _ _ _ (colon-Within (num_lines == 0) 58 s.rest) tt (λ r0 h0.
                found-Bound (Taken n) n _ _ _ (skip-Within n cr r0 h0) tt (λ r h1.
                  end_of_header-Bound (Taken n) _ _
                    (λ next. handle_header antoi (line num_lines multiline s next) s >>= λ t.
                      parse_lines antoi fuel [] 0 (commit next t))
                    r tt
                    (λ after ha. shorter (length after) n _ (omega (arith, ha, h1)) (
                      parse_lines-Taken fuel (multiline ++ upto s.rest r) (suc num_lines)
                        (record s { rest = after }) (omega (arith, ha, h1, h))))
                    (λ next hn.
                      Bound-bind Any (Taken n)
                        (handle_header antoi (line num_lines multiline s next) s) _
                        (handle_header-Bound (line num_lines multiline s next) s)
                        (λ t _. shorter (length next) n _ (omega (arith, hn, h1)) (
                          parse_lines-Taken fuel [] 0 (commit next t)
                            (omega (arith, hn, h1, h))))))))
        ])
