-- ===== src/Http/Bodies.antt =====
-- service/http_parsers.cc: bodies, in chunks or in a block.
use soa.Prelude.{
  ℕ, zero, suc, ◌-◌, ◌+◌, ◌^◌, ◌%◌, Bool, true, false, List, [], ◌∷◌, ok, err, ◌>>=◌, length, take,
  drop, ltb, leb, ◌==◌, if◌then◌else◌,
}
use soa.Http.{out_of_fuel, on_data, Run, Result, emit, commit, upto}
use soa.Http.Lines.{cr, skip_to_char, found}
use soa.Http.Headers.{to_uint64}

-- `onData`, where there are bytes.
abbrev pub emit_data : List ℕ → Run → Run
emit_data [] s = s
emit_data (x ∷ xs) s = emit (on_data (x ∷ xs)) s

unfoldable pub parse_block_body : Run → Bool × Run
parse_block_body s =
    let p = s.parser in
    let chunk = take p.remaining_body s.rest in
    let left = p.remaining_body - length chunk in
    (
      left == 0,
      commit (drop p.remaining_body s.rest)
          (emit_data chunk (record s { parser = record p { remaining_body = left } })),
    )

unfoldable pub before_semicolon : List ℕ → List ℕ
before_semicolon [] = []
before_semicolon (x ∷ xs) = if x == 59 then [] else x ∷ before_semicolon xs

module _ (antoi : ℕ → List ℕ → Result ℕ) where
  -- The loop of `parseChunkedBody`; each round takes a unit of fuel and two bytes. The size of a
  -- chunk is an `int`, as its bit pattern.
  unfoldable pub parse_chunks : ℕ → Run → Result (Bool × Run)
  unfolding skip_to_char before_semicolon
  parse_chunks zero s = err out_of_fuel
  parse_chunks (suc fuel) s =
      let more : Result (Bool × Run) = ok (false, s) in
      skip_to_char cr false s.rest
      >>= found more (λ r.
        let start = drop 2 r in
        elim (leb (length r) 1) [
          | true ↦ more
          | false ↦ antoi 16 (before_semicolon (upto s.rest r)) >>= λ size.
              let whole = to_uint64 ((size + 2) % 2 ^ 32) in
              let chunk = if ltb size (2 ^ 31) then take size start else [] in
              let t = commit (drop whole start) (emit_data chunk s) in
              elim (ltb (length start) whole) [
                | true ↦ more
                | false ↦ elim (size == 0) [ true ↦ ok (true, t) | false ↦ parse_chunks fuel t ]
              ]
        ])

  unfoldable pub parse_body : Run → Result (Bool × Run)
  unfolding parse_chunks parse_block_body
  parse_body s =
      let p = s.parser in
      if p.use_chunked_encoding
      then parse_chunks (suc (length s.rest)) s
      else ok (parse_block_body s)
