-- ===== src/Http/Termination.antt =====
-- `feed` always ends: it returns, or the parser throws.
use soa.Prelude.{
  ℕ, ◌<◌, ◌≢◌, subst, Bool, true, false, Bool-cases, inl, inr, List, [], ◌∷◌, err, ◌>>=◌, length,
  drop, ltb, arith, ◌==◌,
}
use soa.Http.{out_of_fuel, Parser, Run, Result}
use soa.Http.Lines.{
  cr, lf, space, http_slash, found, starts_with, end_of_line, expect_version, parse_request_line,
  parse_status_line,
}
use soa.Http.Feed.{feed}
use soa.Http.Progress.{
  Bound, Bound-bind, Any, Taken, found-Bound, skip_to_char-Within, length-drop_le,
}
use soa.Http.Rounds.{if-Bound, feed-Bound}

-- The two parsers of first lines.
end_of_line-Within :
    {A : Type 0} (Q : A → Type 0) (more : Result A) (next : List ℕ → Result A) (r : List ℕ)
    → Bound Q more
    → ((left : List ℕ) → length left < length r → Bound Q (next left))
    → Bound Q (end_of_line r >>= found more next)
end_of_line-Within Q more next [] h k = h
end_of_line-Within Q more next (x ∷ []) h k = h
end_of_line-Within Q more next (x ∷ y ∷ r) h k = elim (Bool-cases (y == lf)) [
  | inl same ↦ rw same (k r (omega arith))
  | inr other ↦ rw other tt
]

starts_with-Bound : (b : Bool) (t r : List ℕ) → Bound Any (starts_with b t r)
unfolding starts_with
starts_with-Bound b [] r = tt
starts_with-Bound true (t ∷ ts) [] = tt
starts_with-Bound false (t ∷ ts) [] = tt
starts_with-Bound b (t ∷ ts) (x ∷ xs) = if-Bound Any (x == t) _ _ (starts_with-Bound b ts xs) tt

expect_version-Bound : (b : Bool) (r : List ℕ) → Bound Any (expect_version b r)
unfolding expect_version
expect_version-Bound b r =
    Bound-bind Any Any (starts_with b http_slash r) _ (starts_with-Bound b http_slash r)
      (λ same _. if-Bound Any same _ _ tt tt)

parse_request_line-Taken : (s : Run) → Bound (Taken (length s.rest)) (parse_request_line s)
unfolding parse_request_line
parse_request_line-Taken s =
    let n = length s.rest in
    found-Bound (Taken n) n _ _ _ (skip_to_char-Within space true s.rest) tt (λ r h.
      let url = drop 1 r in
      let le = length-drop_le 1 r in
      found-Bound (Taken n) (length url) _ _ _ (skip_to_char-Within space true url) tt (λ q k.
        let version = drop 1 q in
        let ge = length-drop_le 1 q in
        Bound-bind Any (Taken n) _ _ (expect_version-Bound s.from_buffer version) (λ u _.
          found-Bound (Taken n) (length version) _ _ _ (skip_to_char-Within cr false version) tt
            (λ e l.
              end_of_line-Within (Taken n) _ _ e tt
                (λ left f. omega (arith, h, le, k, ge, l, f))))))

module _ (antoi : ℕ → List ℕ → Result ℕ)
    (numbers : (radix : ℕ) (text : List ℕ) → Bound Any (antoi radix text)) where
  parse_status_line-Taken : (s : Run) → Bound (Taken (length s.rest)) (parse_status_line antoi s)
  unfolding parse_status_line
  parse_status_line-Taken s =
      let n = length s.rest in
      let five = length-drop_le 5 s.rest in
      if-Bound (Taken n) (ltb n 16) _ _ tt (
        Bound-bind Any (Taken n) _ _ (expect_version-Bound s.from_buffer s.rest) (λ u _.
          found-Bound (Taken n) (length (drop 5 s.rest)) _ _ _
            (skip_to_char-Within space true (drop 5 s.rest)) tt
            (λ r h.
              let code = drop 1 r in
              let le = length-drop_le 1 r in
              found-Bound (Taken n) (length code) _ _ _ (skip_to_char-Within space true code) tt
                (λ q k. Bound-bind Any (Taken n) _ _ (numbers 10 _) (λ number _.
                  found-Bound (Taken n) (length q) _ _ _ (skip_to_char-Within cr false q) tt (λ e l.
                    end_of_line-Within (Taken n) _ _ e tt
                      (λ left f. omega (arith, five, h, le, k, l, f))))))))

  -- Neither parser runs out of the fuel of its loops, whatever bytes it is given in whatever
  -- state: `feed` returns, or it throws an exception of the parser. `antoi` has to return or throw.
  pub feed-out_of_fuel :
      (bytes : List ℕ) (p : Parser)
      → (feed parse_request_line antoi bytes p ≢ err out_of_fuel)
        × (feed (parse_status_line antoi) antoi bytes p ≢ err out_of_fuel)
  feed-out_of_fuel bytes p = (
    λ e.
        subst (Bound Any) e
          (feed-Bound antoi numbers parse_request_line parse_request_line-Taken bytes p),
    λ e.
        subst (Bound Any) e
          (feed-Bound antoi numbers (parse_status_line antoi) parse_status_line-Taken bytes p),
  )
