-- ===== src/Http/Pieces.antt =====
-- A body of a known length that comes in pieces.
use soa.Prelude.{
  ℕ, suc, ◌-◌, ◌+◌, ◌<◌, ◌≡◌, refl, ap, ◌∙◌, Bool, false, List, [], ◌∷◌, ◌++◌, ok, ◌>>=◌, length,
  take_all, drop_all, All, arith, ◌==◌,
}
use soa.Http.{body, Event, on_data, on_done, Parser, Run, Result, cleared}
use soa.Http.Bodies.{parse_body, parse_block_body}
use soa.Http.Feed.{prepare_parsing, parse_stage, run_stage, feed_loop, feed, save_rest}

-- A parser in a body that is not in chunks, with so many bytes to come.
abbrev pub reading : Bool → Bool → ℕ → Parser
reading expect close n = record {
  expect_body = expect;
  stage = body;
  buffer = [];
  remaining_body = n;
  use_chunked_encoding = false;
  require_close = close;
}

abbrev pub total : List (List ℕ) → ℕ
total [] = 0
total (b ∷ bs) = length b + total bs

abbrev pub datas : List (List ℕ) → List Event
datas [] = []
datas (b ∷ bs) = on_data b ∷ datas bs

module _ (parse_first_line : Run → Result (Bool × Run)) (antoi : ℕ → List ℕ → Result ℕ) where
  -- One `feed` after another.
  unfoldable pub feed_all : List (List ℕ) → Parser → Result (Parser × List Event)
  unfolding feed
  feed_all [] p = ok (p, [])
  feed_all (b ∷ bs) p =
      feed parse_first_line antoi b p >>= λ r. feed_all bs r.0 >>= λ t. ok (t.0, r.1 ++ t.1)

  feed_last :
      (expect close : Bool) (x : ℕ) (xs : List ℕ)
      → feed parse_first_line antoi (x ∷ xs) (reading expect close (suc (length xs)))
        ≡ ok (cleared, on_data (x ∷ xs) ∷ on_done close ∷ [])
  unfolding feed prepare_parsing feed_loop parse_stage run_stage parse_body parse_block_body
      save_rest
  feed_last expect close x xs =
      let none_left : suc (length xs) - suc (length xs) ≡ 0 = omega arith in
      rw (take_all (length xs) xs (omega arith), drop_all (length xs) xs (omega arith), none_left)
        refl

  feed_part :
      (expect close : Bool) (n : ℕ) (x : ℕ) (xs : List ℕ)
      → suc (length xs) < suc n
      → feed parse_first_line antoi (x ∷ xs) (reading expect close (suc n))
        ≡ ok (reading expect close (suc n - suc (length xs)), on_data (x ∷ xs) ∷ [])
  unfolding feed prepare_parsing feed_loop parse_stage run_stage parse_body parse_block_body
      save_rest
  feed_part expect close n x xs h =
      let some_left : (suc n - suc (length xs) == 0) ≡ false = ground arith in
      rw (take_all n xs (omega arith), drop_all n xs (omega arith), some_left) refl

  feed_piece :
      (expect close : Bool) (m x : ℕ) (xs : List ℕ)
      → 0 < m
      → feed parse_first_line antoi (x ∷ xs) (reading expect close (suc (length xs) + m))
        ≡ ok (reading expect close m, on_data (x ∷ xs) ∷ [])
  feed_piece expect close m x xs h =
      let sum : suc (length xs) + m ≡ suc (length xs + m) = omega arith in
      let left : suc (length xs + m) - suc (length xs) ≡ m = omega arith in
      ap (λ k. feed parse_first_line antoi (x ∷ xs) (reading expect close k)) sum
      ∙ feed_part expect close (length xs + m) x xs (omega arith)
      ∙ ap (λ k. ok (reading expect close k, on_data (x ∷ xs) ∷ [])) left

  -- A parser with an empty buffer, in a body that is not in chunks, is fed the bytes of the body in
  -- any pieces that are not empty, one at least. It reports them piece by piece, in order and whole,
  -- reports the end of the message after the last piece and not before, and is then as new.
  pub feed_all_body :
      (expect close : Bool) (b : List ℕ) (bs : List (List ℕ))
      → All (λ c. 0 < length c) (b ∷ bs)
      → feed_all (b ∷ bs) (reading expect close (total (b ∷ bs)))
        ≡ ok (cleared, datas (b ∷ bs) ++ (on_done close ∷ []))
  unfolding feed_all
  feed_all_body expect close [] bs h = absurd (omega (arith, h.0))
  feed_all_body expect close (x ∷ xs) [] h =
      let all : suc (length xs) + 0 ≡ suc (length xs) = omega arith in
      rw (all, feed_last expect close x xs) refl
  feed_all_body expect close (x ∷ xs) (c ∷ bs) h =
      rw
        (
          feed_piece expect close (total (c ∷ bs)) x xs (omega (arith, h.1.0)),
          feed_all_body expect close c bs h.1,
        )
        refl
