-- ===== src/Http/Headers.antt =====
-- service/http_parsers.cc: header lines.
use soa.Prelude.{
  ℕ, zero, suc, ◌-◌, ◌+◌, ◌^◌, Bool, true, false, not, ◌&&◌, ◌||◌, Option, none, some, List, [],
  ◌∷◌, ◌++◌, ok, err, ◌>>=◌, length, take, drop, ltb, leb, ◌==◌, if◌then◌else◌,
}
use soa.Http.{expected_lf, out_of_fuel, on_header, Parser, Run, Result, emit, commit, upto}
use soa.Http.Lines.{cr, lf, space, skip_to_char, found, peek}

abbrev colon : ℕ
colon = 58

abbrev lower : ℕ → ℕ
lower c = if leb 65 c && leb c 90 then c + 32 else c

-- `matchString`, up to case: the bytes behind the text, or nothing for false.
unfoldable pub match_string : List ℕ → List ℕ → Option (List ℕ)
match_string [] r = some r
match_string (t ∷ ts) [] = none
match_string (t ∷ ts) (x ∷ xs) = if lower x == lower t then match_string ts xs else none

unfoldable pub skip_char : ℕ → List ℕ → List ℕ
skip_char c [] = []
skip_char c (x ∷ xs) = if x == c then skip_char c xs else x ∷ xs

unfoldable pub to_colon : List ℕ → List ℕ
to_colon [] = []
to_colon (x ∷ xs) = if x == colon then x ∷ xs else to_colon xs

unfoldable pub skip_to_value : List ℕ → List ℕ
unfolding skip_char to_colon
skip_to_value r = skip_char space (drop 1 (to_colon (skip_char space r)))

-- An `int`, as its bit pattern, made a `uint64_t`.
abbrev pub to_uint64 : ℕ → ℕ
to_uint64 n = if ltb n (2 ^ 31) then n else n + (2 ^ 64 - 2 ^ 32)

abbrev pub connection : List ℕ
connection = 67 ∷ 111 ∷ 110 ∷ 110 ∷ 101 ∷ 99 ∷ 116 ∷ 105 ∷ 111 ∷ 110 ∷ []

abbrev close : List ℕ
close = 99 ∷ 108 ∷ 111 ∷ 115 ∷ 101 ∷ []

-- "Content-Length"
abbrev pub content_length : List ℕ
content_length = 67 ∷ 111 ∷ 110 ∷ 116 ∷ 101 ∷ 110 ∷ 116 ∷ 45 ∷ 76 ∷ 101 ∷ 110 ∷ 103 ∷ 116 ∷ 104 ∷ []

abbrev pub transfer_encoding : List ℕ
transfer_encoding =
    84 ∷ 114 ∷ 97 ∷ 110 ∷ 115 ∷ 102 ∷ 101 ∷ 114 ∷ 45 ∷ 69 ∷ 110 ∷ 99 ∷ 111 ∷ 100 ∷ 105 ∷ 110 ∷ 103
    ∷ []

abbrev chunked : List ℕ
chunked = 99 ∷ 104 ∷ 117 ∷ 110 ∷ 107 ∷ 101 ∷ 100 ∷ []

-- Where a header line ends, from its `\r` on: nothing more can be said before the byte that follows
-- the `\n` is there, which tells whether the next line continues this one.
abbrev pub end_of_header :
    {A : Type 0} → Result A → (List ℕ → Result A) → (List ℕ → Result A) → List ℕ → Result A
end_of_header more continued complete [] = more
end_of_header more continued complete (x ∷ []) = more
end_of_header more continued complete (x ∷ y ∷ []) = more
end_of_header more continued complete (x ∷ y ∷ z ∷ after) =
    if not (y == lf)
    then err expected_lf
    else elim (z == 32 || z == 9) [ true ↦ continued after | false ↦ complete (z ∷ after) ]

-- The end of the headers.
unfoldable pub blank_line : Run → Result (Bool × Run)
blank_line s = elim (drop 1 s.rest) [
  | [] ↦ ok (false, s)
  | x ∷ r ↦
      if x == lf then ok (true, emit (on_header (cr ∷ lf ∷ [])) (commit r s)) else err expected_lf
]

module _ (antoi : ℕ → List ℕ → Result ℕ) where
  -- What a header changes of the parser, from what stands behind each of the three names that
  -- `handleHeader` looks for.
  unfoldable pub read_value :
      Option (List ℕ) → Option (List ℕ) → Option (List ℕ) → Parser → Result Parser
  unfolding match_string skip_to_value
  read_value (some r) _ _ p = elim (match_string close (skip_to_value r)) [
    | some _ ↦ ok (record p { require_close = true })
    | none ↦ ok p
  ]
  read_value none (some r) _ p =
      let value = skip_to_value r in
      antoi 10 (take (length value - 2) value) >>= λ n.
      ok (record p { remaining_body = to_uint64 n })
  read_value none none (some r) p = elim (match_string chunked (skip_to_value r)) [
    | some _ ↦ ok (record p { use_chunked_encoding = true })
    | none ↦ ok p
  ]
  read_value none none none p = ok p

  unfoldable pub read_header : List ℕ → Parser → Result Parser
  unfolding match_string read_value
  read_header line p =
      read_value (match_string connection line) (match_string content_length line)
        (match_string transfer_encoding line) p

  unfoldable pub handle_header : List ℕ → Run → Result Run
  unfolding read_header
  handle_header line s =
      read_header line s.parser >>= λ p. ok (emit (on_header line) (record s { parser = p }))

  -- The loop of `parseHeaders`. `multiline` has the lines that the current line continues, num_lines
  -- of them. Each round takes a unit of fuel and three bytes.
  unfoldable pub parse_lines : ℕ → List ℕ → ℕ → Run → Result (Bool × Run)
  unfolding skip_to_char handle_header blank_line
  parse_lines zero multiline num_lines s = err out_of_fuel
  parse_lines (suc fuel) multiline num_lines s =
      let line = s.rest in
      let more : Result (Bool × Run) = ok (false, s) in
      let continued : List ℕ → List ℕ → Result (Bool × Run) = λ r after.
        parse_lines fuel (multiline ++ upto line r) (suc num_lines) (record s { rest = after }) in
      let complete : List ℕ → Result (Bool × Run) = λ next.
        handle_header (if num_lines == 0 then upto line next else multiline ++ upto line next) s
        >>= λ t. parse_lines fuel [] 0 (commit next t) in
      peek s.from_buffer line >>= λ c. elim (not (c == cr) || ltb 0 num_lines) [
        | false ↦ blank_line s
        | true ↦
            (if num_lines == 0 then skip_to_char colon true line else ok (some line))
            >>= found more (λ r0.
              skip_to_char cr false r0
              >>= found more (λ r. end_of_header more (continued r) complete r))
      ]

  unfoldable pub parse_headers : Run → Result (Bool × Run)
  unfolding parse_lines
  parse_headers s = parse_lines (suc (length s.rest)) [] 0 s
