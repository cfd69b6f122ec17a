-- ===== src/Http/Starts.antt =====
-- The first lines of requests and responses.
use mathlib.Core.List.{append_assoc}
use soa.Prelude.{
  ℕ, zero, suc, ◌-◌, ◌<◌, ◌≤◌, ◌≡◌, refl, sym, ap, ◌∙◌, Bool, true, false, not, ◌&&◌, ◌||◌, some,
  List, [], ◌∷◌, ◌++◌, ok, err, length, length-append, take, ltb, All, arith, ◌==◌,
}
use soa.Http.{
  over_read, on_request_start, on_response_start, Run, Result, cleared, emit, commit, upto,
}
use soa.Http.Lines.{
  cr, lf, space, skip_to_char, starts_with, http_slash, expect_version, parse_request_line,
  parse_status_line,
}
use soa.Http.Feed.{prepare_parsing, parse_stage, run_stage, feed_loop, feed}

-- Neither a space nor the end of a line.
abbrev pub plain : ℕ → Bool
plain x = not (x == space) && not (x == cr || x == lf)

abbrev pub not_cr : ℕ → Bool
not_cr x = not (x == cr)

skip_to_space :
    (xs r : List ℕ)
    → All (λ x. plain x ≡ true) xs
    → skip_to_char space true (xs ++ (space ∷ r)) ≡ ok (some (space ∷ r))
unfolding skip_to_char
skip_to_space [] r h = refl
skip_to_space (x ∷ xs) r h = ground (arith, h.0, skip_to_space xs r h.1)

skip_to_cr :
    (xs r : List ℕ)
    → All (λ x. not_cr x ≡ true) xs
    → skip_to_char cr false (xs ++ (cr ∷ r)) ≡ ok (some (cr ∷ r))
unfolding skip_to_char
skip_to_cr [] r h = refl
skip_to_cr (x ∷ xs) r h = ground (arith, h.0, skip_to_cr xs r h.1)

take-append : {A : Type 0} (xs ys : List A) → take (length xs) (xs ++ ys) ≡ xs
take-append [] ys = refl
take-append (x ∷ xs) ys = ap (λ zs. x ∷ zs) (take-append xs ys)

upto-append : (xs ys : List ℕ) → upto (xs ++ ys) ys ≡ xs
upto-append xs ys =
    let same : length (xs ++ ys) - length ys ≡ length xs = omega (arith, length-append xs ys) in
    rw same (take-append xs ys)

-- A request line from its version on, from its URL on, and whole, with what follows it.
abbrev version_on : List ℕ → List ℕ → List ℕ
version_on version more = http_slash ++ (version ++ (cr ∷ lf ∷ more))

abbrev url_on : List ℕ → List ℕ → List ℕ → List ℕ
url_on url version more = url ++ (space ∷ version_on version more)

abbrev pub request_line : List ℕ → List ℕ → List ℕ → List ℕ → List ℕ
request_line method url version more = method ++ (space ∷ url_on url version more)

-- A status line from its code on, and whole, with what follows it.
abbrev code_on : List ℕ → List ℕ → List ℕ → List ℕ
code_on code reason more = code ++ (space ∷ (reason ++ (cr ∷ lf ∷ more)))

abbrev pub status_line : List ℕ → List ℕ → List ℕ → List ℕ → List ℕ
status_line version code reason more = http_slash ++ (version ++ (space ∷ code_on code reason more))

module _ (method url version more : List ℕ) (m : All (λ x. plain x ≡ true) method)
    (u : All (λ x. plain x ≡ true) url) (v : All (λ x. not_cr x ≡ true) version) where
  -- A whole request line, whose method and URL have no space and no end of line in them and whose
  -- version has no `\r`, is reported with its method, its URL and its version, from wherever it
  -- stands in the bytes that are parsed. What follows it is left, and committed.
  pub parse_request_line-request_line :
      (s : Run)
      → s.rest ≡ request_line method url version more
      → parse_request_line s
        ≡ ok (true, emit (on_request_start method url (http_slash ++ version)) (commit more s))
  unfolding parse_request_line starts_with expect_version
  parse_request_line-request_line s h =
      let end = cr ∷ lf ∷ more in
      rw
        (
          h,
          skip_to_space method (url_on url version more) m,
          skip_to_space url (version_on version more) u,
          skip_to_cr version (lf ∷ more) v,
          upto-append method (space ∷ url_on url version more),
          upto-append url (space ∷ version_on version more),
          upto-append (http_slash ++ version) end,
        )
        refl

module _ (antoi : ℕ → List ℕ → Result ℕ) (version code reason more : List ℕ) (number : ℕ)
    (v : All (λ x. plain x ≡ true) version) (c : All (λ x. plain x ≡ true) code)
    (w : All (λ x. not_cr x ≡ true) reason)
    (long : 16 ≤ length (status_line version code reason more))
    (a : antoi 10 code ≡ ok number) where
  -- A whole status line, of 16 bytes at least with what follows it, whose version and code have no
  -- space and no end of line in them, whose reason has no `\r`, and whose code `antoi` reads, is
  -- reported with its code and its version. But the version has all bytes before the line, `old`, in
  -- front of it: where the line follows another response in what is parsed, that response.
  pub parse_status_line-status_line :
      (s : Run) (old : List ℕ)
      → s.rest ≡ status_line version code reason more
      → s.bytes ≡ old ++ status_line version code reason more
      → parse_status_line antoi s
        ≡ ok
            (true, emit (on_response_start (old ++ (http_slash ++ version)) number) (commit more s))
  unfolding parse_status_line starts_with expect_version
  parse_status_line-status_line s old h b =
      let short : ltb (length (status_line version code reason more)) 16 ≡ false = ground arith in
      let whole : upto (old ++ status_line version code reason more)
            (space ∷ code_on code reason more)
          ≡ old ++ (http_slash ++ version) =
        ap (λ z. upto z (space ∷ code_on code reason more))
          (sym (append_assoc old (http_slash ++ version) (space ∷ code_on code reason more)))
        ∙ upto-append (old ++ (http_slash ++ version)) (space ∷ code_on code reason more) in
      rw
        (
          h,
          short,
          skip_to_space version (code_on code reason more) v,
          skip_to_space code (reason ++ (cr ∷ lf ∷ more)) c,
          upto-append code (space ∷ (reason ++ (cr ∷ lf ∷ more))),
          skip_to_cr reason (lf ∷ more) w,
          a,
          b,
          whole,
        )
        refl

-- Request lines that stop within "HTTP/".
module _ (antoi : ℕ → List ℕ → Result ℕ) where
  expect_version_part : (k : ℕ) → k < 5 → expect_version false (take k http_slash) ≡ err over_read
  unfolding starts_with expect_version
  expect_version_part zero h = refl
  expect_version_part (suc zero) h = refl
  expect_version_part (suc (suc zero)) h = refl
  expect_version_part (suc (suc (suc zero))) h = refl
  expect_version_part (suc (suc (suc (suc zero)))) h = refl
  expect_version_part (suc (suc (suc (suc (suc k))))) h = absurd (omega (arith, h))

  parse_request_line_part :
      (s : Run) (method url : List ℕ) (k : ℕ)
      → All (λ x. plain x ≡ true) method
      → All (λ x. plain x ≡ true) url
      → k < 5
      → s.from_buffer ≡ false
      → s.rest ≡ method ++ (space ∷ (url ++ (space ∷ take k http_slash)))
      → parse_request_line s ≡ err over_read
  unfolding parse_request_line
  parse_request_line_part s method url k m u h f r =
      rw
        (
          r,
          f,
          skip_to_space method (url ++ (space ∷ take k http_slash)) m,
          skip_to_space url (take k http_slash) u,
          expect_version_part k h,
        )
        refl

  -- A first piece of a request that stops before the fifth byte of the "HTTP/" of its first line
  -- makes a new parser read past the bytes that it was given, whatever the method, which is not
  -- empty, and the URL, both with no space and no end of line in them.
  pub feed_part_of_line :
      (x : ℕ) (method url : List ℕ) (k : ℕ)
      → All (λ y. plain y ≡ true) (x ∷ method)
      → All (λ y. plain y ≡ true) url
      → k < 5
      → feed parse_request_line antoi
          (x ∷ (method ++ (space ∷ (url ++ (space ∷ take k http_slash)))))
          cleared
        ≡ err over_read
  unfolding feed prepare_parsing feed_loop parse_stage run_stage
  feed_part_of_line x method url k m u h =
      let given = x ∷ (method ++ (space ∷ (url ++ (space ∷ take k http_slash)))) in
      rw
        (parse_request_line_part (prepare_parsing given cleared) (x ∷ method) url k m u h refl refl)
        refl
