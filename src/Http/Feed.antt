-- ===== src/Http/Feed.antt =====
-- service/http_parsers.cc: `feed`.
use soa.Prelude.{
  ◌+◌, ℕ, zero, suc, Bool, true, false, not, ◌&&◌, ◌||◌, List, [], ◌∷◌, ◌++◌, ok, err, ◌>>=◌,
  length, ◌==◌, if◌then◌else◌,
}
use soa.Http.{
  Stage, first_line, headers, body, out_of_fuel, Event, on_done, Parser, Run, Result, cleared, emit,
}
use soa.Http.Headers.{parse_headers}
use soa.Http.Bodies.{parse_body}

-- `prepareParsing`
unfoldable pub prepare_parsing : List ℕ → Parser → Run
prepare_parsing given p = elim p.buffer [
  | [] ↦ record {
    parser = p;
    bytes = given;
    rest = given;
    uncommited = given;
    from_buffer = false;
    events = [];
  }
  | x ∷ xs ↦
      let all = p.buffer ++ given in
      record {
        parser = record p { buffer = all };
        bytes = all;
        rest = all;
        uncommited = all;
        from_buffer = true;
        events = [];
      }
]

-- `finalizeParsing`. The source goes on to read through a pointer into the buffer that clear() has
-- emptied; here the bytes can still be read from where they were.
abbrev pub finalize_parsing : Run → Run
finalize_parsing s =
    let p = s.parser in record (emit (on_done p.require_close) s) { parser = cleared }

abbrev pub goto_stage : Stage → Run → Run
goto_stage n s = record s { parser = record s.parser { stage = n } }

-- Where the headers end.
abbrev pub after_headers : Run → Run
after_headers s =
    let p = s.parser in
    if not p.expect_body || (p.remaining_body == 0 && not p.use_chunked_encoding)
    then finalize_parsing s
    else goto_stage body s

-- What becomes of the bytes that are not committed.
unfoldable pub save_rest : Run → Parser
save_rest s =
    let p = s.parser in
    elim s.uncommited [
      | [] ↦ if s.from_buffer then record p { buffer = [] } else p
      | x ∷ xs ↦
          if not (length s.uncommited == length s.bytes) || not s.from_buffer
          then record p { buffer = s.uncommited }
          else p
    ]

-- The parser of first lines is the virtual `parseFirstLine`.
module _ (parse_first_line : Run → Result (Bool × Run)) (antoi : ℕ → List ℕ → Result ℕ) where
  -- A stage, and the one that follows it where it is done.
  unfoldable pub run_stage : Stage → Run → Result (Bool × Run)
  unfolding parse_headers parse_body
  run_stage first_line s =
      parse_first_line s >>= λ r. ok (r.0, if r.0 then goto_stage headers r.1 else r.1)
  run_stage headers s =
      parse_headers antoi s >>= λ r. ok (r.0, if r.0 then after_headers r.1 else r.1)
  run_stage body s = parse_body antoi s >>= λ r. ok (r.0, if r.0 then finalize_parsing r.1 else r.1)

  unfoldable pub parse_stage : Run → Result (Bool × Run)
  unfolding run_stage
  parse_stage s = run_stage s.parser.stage s

  -- The loop of `feed`. Each round takes a unit of fuel. Where it is not the last it takes a byte,
  -- or it leaves the body.
  unfoldable pub feed_loop : ℕ → Run → Result Run
  unfolding parse_stage
  feed_loop zero s = err out_of_fuel
  feed_loop (suc fuel) s = elim s.rest [
    | [] ↦ ok s
    | x ∷ xs ↦ parse_stage s >>= λ r. elim r.0 [ false ↦ ok r.1 | true ↦ feed_loop fuel r.1 ]
  ]

  -- The parser afterwards, and the callbacks that were called.
  unfoldable pub feed : List ℕ → Parser → Result (Parser × List Event)
  unfolding prepare_parsing feed_loop save_rest
  feed bytes p =
      let s = prepare_parsing bytes p in
      feed_loop (suc (suc (length s.rest + length s.rest))) s >>= λ t. ok (save_rest t, t.events)
