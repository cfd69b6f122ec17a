-- ===== src/Http/Rounds.antt =====
-- The rounds of `feed`, of which each leaves less to do.
use soa.Prelude.{
  ℕ, zero, suc, ◌+◌, ◌<◌, ◌≤◌, ◌^◌, ◌%◌, ◌≡◌, Bool, true, false, Bool-cases, inl, inr, not, ◌&&◌,
  ◌||◌, List, [], ◌∷◌, ok, length, take, drop, leb, ltb, arith, ◌==◌, if◌then◌else◌,
}
use soa.Http.{Stage, first_line, headers, body, Parser, Run, Result, commit}
use soa.Http.Lines.{cr}
use soa.Http.Headers.{parse_headers, to_uint64}
use soa.Http.Bodies.{parse_body, parse_chunks, parse_block_body, emit_data}
use soa.Http.Feed.{
  prepare_parsing, parse_stage, run_stage, feed_loop, feed, finalize_parsing, goto_stage,
  after_headers,
}
use soa.Http.Progress.{
  Bound, Bound-bind, Any, Taken, shorter, found-Bound, skip_to_char-Within, length-drop_le,
  parse_lines-Taken,
}

drop-shorter : (r : List ℕ) → leb (length r) 1 ≡ false → suc (length (drop 2 r)) < length r
drop-shorter [] h = ground arith
drop-shorter (x ∷ []) h = ground arith
drop-shorter (x ∷ y ∷ r) h = omega arith

pub if-Bound :
    {A : Type 0} (Q : A → Type 0) (b : Bool) (x y : Result A)
    → Bound Q x
    → Bound Q y
    → Bound Q (if b then x else y)
if-Bound Q true x y h k = h
if-Bound Q false x y h k = k

Taken-pair : (n : ℕ) (b : Bool) (t : Run) → length t.rest < n → Taken n (b, t)
Taken-pair n true t h = h
Taken-pair n false t h = tt

rest-Bound :
    {A : Type 0} (xs : List ℕ) (a b : Result A)
    → Bound Any a
    → Bound Any b
    → Bound Any (elim xs [ [] ↦ a | x ∷ ys ↦ b ])
rest-Bound [] a b h k = h
rest-Bound (x ∷ xs) a b h k = k

module _ (antoi : ℕ → List ℕ → Result ℕ)
    (numbers : (radix : ℕ) (text : List ℕ) → Bound Any (antoi radix text)) where
  parse_chunks-Taken :
      (fuel : ℕ) (s : Run)
      → length s.rest < fuel
      → Bound (Taken (length s.rest)) (parse_chunks antoi fuel s)
  unfolding parse_chunks
  parse_chunks-Taken zero s h = absurd (omega (arith, h))
  parse_chunks-Taken (suc fuel) s h =
      let n = length s.rest in
      found-Bound (Taken n) n _ _ _ (skip_to_char-Within cr false s.rest) tt (λ r h0.
        elim (Bool-cases (leb (length r) 1)) [
          | inl short ↦ rw short tt
          | inr long ↦ rw long (
              Bound-bind Any (Taken n) _ _ (numbers 16 _) (λ size _.
                let whole = to_uint64 ((size + 2) % 2 ^ 32) in
                let start = drop 2 r in
                let two = drop-shorter r long in
                let left = length-drop_le whole start in
                elim (Bool-cases (ltb (length start) whole)) [
                  | inl wait ↦ rw wait tt
                  | inr there ↦ elim (Bool-cases (size == 0)) [
                    | inl last ↦ rw (there, last) (omega (arith, h0, two, left))
                    | inr more ↦
                        rw (there, more)
                          (shorter antoi numbers (length (drop whole start)) n _
                            (omega (arith, h0, two, left))
                            (parse_chunks-Taken fuel
                              (commit (drop whole start)
                                (emit_data (if ltb size (2 ^ 31) then take size start else []) s))
                              (omega (arith, h, h0, two, left))))
                  ]
                ]))
        ])

  parse_body-Taken : (s : Run) → Bound (Taken (suc (length s.rest))) (parse_body antoi s)
  unfolding parse_body parse_block_body
  parse_body-Taken s =
      if-Bound (Taken (suc n)) s.parser.use_chunked_encoding _ _
        (shorter antoi numbers n (suc n) _ (omega arith)
          (parse_chunks-Taken (suc n) s (omega arith)))
        (Taken-pair (suc n) _ _ (omega (arith, length-drop_le s.parser.remaining_body s.rest)))
    where
      n : ℕ
      n = length s.rest

  -- What one round of `feed` leaves to do: two for each byte, and one more in a body.
  abbrev in_body : Stage → ℕ
  in_body body = 1
  in_body _ = 0

  abbrev work : Run → ℕ
  work s = length s.rest + length s.rest + in_body s.parser.stage

  -- A round that is done leaves less than m to do.
  abbrev Less : ℕ → Bool × Run → Type 0
  Less m (true, t) = work t < m
  Less m (false, t) = Unit

  after_headers-work : (t : Run) → work (after_headers t) ≤ length t.rest + length t.rest + 1
  after_headers-work t = at (
      not t.parser.expect_body
      || (t.parser.remaining_body == 0 && not t.parser.use_chunked_encoding))
    where
      at :
          (b : Bool)
          → work (if b then finalize_parsing t else goto_stage body t)
            ≤ length t.rest + length t.rest + 1
      at true = omega arith
      at false = omega arith

  module _ (first : Run → Result (Bool × Run))
      (progress : (s : Run) → Bound (Taken (length s.rest)) (first s)) where
    after_first_line :
        (n : ℕ) (r : Bool × Run)
        → Taken n r
        → Less (n + n + 0) (r.0, if r.0 then goto_stage headers r.1 else r.1)
    after_first_line n (true, t) h = omega (arith, h)
    after_first_line n (false, t) h = tt

    after_header_lines :
        (n : ℕ) (r : Bool × Run)
        → Taken n r
        → Less (n + n + 0) (r.0, if r.0 then after_headers r.1 else r.1)
    after_header_lines n (true, t) h = omega (arith, h, after_headers-work t)
    after_header_lines n (false, t) h = tt

    after_body :
        (n : ℕ) (r : Bool × Run)
        → Taken (suc n) r
        → Less (n + n + 1) (r.0, if r.0 then finalize_parsing r.1 else r.1)
    after_body n (true, t) h = omega (arith, h)
    after_body n (false, t) h = tt

    run_stage-Less :
        (g : Stage) (s : Run)
        → Bound (Less (length s.rest + length s.rest + in_body g)) (run_stage first antoi g s)
    unfolding run_stage parse_headers
    run_stage-Less first_line s =
        let n = length s.rest in
        Bound-bind (Taken n) (Less (n + n + 0)) (first s) _ (progress s) (after_first_line n)
    run_stage-Less headers s =
        let n = length s.rest in
        Bound-bind (Taken n) (Less (n + n + 0)) (parse_headers antoi s) _
          (parse_lines-Taken antoi numbers (suc n) [] 0 s (omega arith)) (after_header_lines n)
    run_stage-Less body s =
        let n = length s.rest in
        Bound-bind (Taken (suc n)) (Less (n + n + 1)) (parse_body antoi s) _ (parse_body-Taken s)
          (after_body n)

    next_round :
        (fuel m : ℕ)
        → ((t : Run) → work t < m → Bound Any (feed_loop first antoi fuel t))
        → (r : Bool × Run) → Less m r
        → Bound Any (elim r.0 [ false ↦ ok r.1 | true ↦ feed_loop first antoi fuel r.1 ])
    next_round fuel m again (true, t) h = again t h
    next_round fuel m again (false, t) h = tt

    feed_loop-Bound :
        (fuel : ℕ) (s : Run) → work s < fuel → Bound Any (feed_loop first antoi fuel s)
    unfolding feed_loop parse_stage
    feed_loop-Bound zero s h = absurd (omega (arith, h))
    feed_loop-Bound (suc fuel) s h = rest-Bound s.rest (ok s) _ tt (
        Bound-bind (Less (work s)) Any (parse_stage first antoi s) _
          (run_stage-Less s.parser.stage s)
          (next_round fuel (work s) (λ t l. feed_loop-Bound fuel t (omega (arith, l, h)))))

    -- Whatever bytes it is given, `feed` does not run out of its fuel: it returns, or the parser
    -- throws. The parser of first lines has to take a byte at least where it is done, and `antoi`
    -- has to return or throw.
    pub feed-Bound : (bytes : List ℕ) (p : Parser) → Bound Any (feed first antoi bytes p)
    unfolding feed
    feed-Bound bytes p =
        let s = prepare_parsing bytes p in
        Bound-bind Any Any (feed_loop first antoi (suc (suc (length s.rest + length s.rest))) s) _
          (feed_loop-Bound (suc (suc (length s.rest + length s.rest))) s (enough s.parser.stage))
          (λ t _. tt)
      where
        enough : {n : ℕ} (g : Stage) → n + in_body g < suc (suc n)
        enough first_line = omega arith
        enough headers = omega arith
        enough body = omega arith
