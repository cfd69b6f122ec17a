-- ===== src/Http/Examples.antt =====
-- The theorems about the parsers at concrete messages, and a whole message. Numbers are read by a
-- reader of decimal or hexadecimal digits up to 9.
use soa.Prelude.{◌≢◌, ℕ, ◌+◌, ◌-◌, ◌*◌, ◌≡◌, refl, true, false, List, [], ◌∷◌, ◌++◌, ok, err, arith}
use soa.Http.Termination.{feed-out_of_fuel}
use soa.Http.{
  out_of_fuel, over_read, on_request_start, on_response_start, on_header, on_data, on_done, Run,
  Result, cleared, emit, commit,
}
use soa.Http.Lines.{
  cr, lf, http_slash, parse_request_line, parse_status_line, skip_to_char, expect_version,
  starts_with,
}
use soa.Http.Headers.{
  parse_headers, parse_lines, handle_header, read_header, match_string, skip_to_value, skip_char,
  to_colon, blank_line, content_length,
}
use soa.Http.Bodies.{parse_body, parse_chunks, parse_block_body, before_semicolon}
use soa.Http.Feed.{prepare_parsing, parse_stage, run_stage, feed_loop, feed, save_rest}
use soa.Http.Pieces.{feed_all, feed_all_body, reading}
use soa.Http.Starts.{request_line, status_line, parse_status_line-status_line, feed_part_of_line}

abbrev digits : ℕ → ℕ → List ℕ → ℕ
digits radix n [] = n
digits radix n (x ∷ xs) = digits radix (n * radix + (x - 48)) xs

abbrev number_of : ℕ → List ℕ → Result ℕ
number_of radix text = ok (digits radix 0 text)

-- "GET" and "/a"
abbrev get_method : List ℕ
get_method = 71 ∷ 69 ∷ 84 ∷ []

abbrev url_a : List ℕ
url_a = 47 ∷ 97 ∷ []

abbrev version_11 : List ℕ
version_11 = 49 ∷ 46 ∷ 49 ∷ []

-- "Content-Length: 3\r\n"
abbrev length_header : List ℕ
length_header = content_length ++ (58 ∷ 32 ∷ 51 ∷ cr ∷ lf ∷ [])

abbrev message : List ℕ
message = request_line get_method url_a version_11 (length_header ++ (cr ∷ lf ∷ 120 ∷ 121 ∷ []))

-- A request whose body comes in two pieces, with the start of the next request.
message-feed :
    feed_all parse_request_line number_of (message ∷ (122 ∷ 71 ∷ []) ∷ []) cleared
    ≡ ok (
      record cleared { buffer = 71 ∷ [] },
      on_request_start get_method url_a (http_slash ++ version_11)
          ∷ on_header length_header
          ∷ on_header (cr ∷ lf ∷ [])
          ∷ on_data (120 ∷ 121 ∷ [])
          ∷ on_data (122 ∷ [])
          ∷ on_done false
          ∷ [],
    )
unfolding feed_all feed prepare_parsing feed_loop parse_stage run_stage save_rest parse_request_line
    skip_to_char expect_version starts_with parse_headers parse_lines handle_header read_header
    match_string skip_to_value skip_char to_colon blank_line parse_body parse_block_body
message-feed = refl

-- "4;x\r\nwxyz\r\n0\r\n\r\n"
abbrev chunks : List ℕ
chunks = 52 ∷ 59 ∷ 120 ∷ cr ∷ lf ∷ 119 ∷ 120 ∷ 121 ∷ 122 ∷ cr ∷ lf ∷ 48 ∷ cr ∷ lf ∷ cr ∷ lf ∷ []

chunks-feed :
    feed parse_request_line number_of chunks
      (record (reading true true 0) { use_chunked_encoding = true })
    ≡ ok (cleared, on_data (119 ∷ 120 ∷ 121 ∷ 122 ∷ []) ∷ on_done true ∷ [])
unfolding feed prepare_parsing feed_loop parse_stage run_stage save_rest skip_to_char parse_body
    parse_chunks before_semicolon
chunks-feed = refl

feed_all_body_example :
    feed_all parse_request_line number_of ((1 ∷ 2 ∷ []) ∷ (3 ∷ []) ∷ []) (reading true true 3)
    ≡ ok (cleared, on_data (1 ∷ 2 ∷ []) ∷ on_data (3 ∷ []) ∷ on_done true ∷ [])
feed_all_body_example =
    feed_all_body parse_request_line number_of true true (1 ∷ 2 ∷ []) ((3 ∷ []) ∷ [])
      (omega arith, (omega arith, tt))

abbrev at_request : Run
at_request = record {
  parser = cleared;
  bytes = message;
  rest = message;
  uncommited = message;
  from_buffer = false;
  events = [];
}

abbrev code_200 : List ℕ
code_200 = 50 ∷ 48 ∷ 48 ∷ []

abbrev ok_line : List ℕ
ok_line = status_line version_11 code_200 (79 ∷ 75 ∷ []) []

-- The second of two responses in one piece.
abbrev at_second : Run
at_second = record {
  parser = cleared;
  bytes = ok_line ++ ok_line;
  rest = ok_line;
  uncommited = ok_line;
  from_buffer = false;
  events = [];
}

parse_status_line-status_line_example :
    parse_status_line number_of at_second
    ≡ ok (
      true,
      emit (on_response_start (ok_line ++ (http_slash ++ version_11)) 200) (commit [] at_second),
    )
parse_status_line-status_line_example =
    parse_status_line-status_line number_of version_11 code_200 (79 ∷ 75 ∷ []) [] 200
      (refl, (refl, (refl, tt))) (refl, (refl, (refl, tt))) (refl, (refl, tt)) (omega arith) refl
      at_second ok_line refl refl

feed_part_of_line_example :
    feed parse_request_line number_of (get_method ++ (32 ∷ 47 ∷ 97 ∷ 32 ∷ 72 ∷ 84 ∷ [])) cleared
    ≡ err over_read
feed_part_of_line_example =
    feed_part_of_line number_of 71 (69 ∷ 84 ∷ []) url_a 2 (refl, (refl, (refl, tt)))
      (refl, (refl, tt)) (omega arith)

feed-out_of_fuel_example :
    (feed parse_request_line number_of message cleared ≢ err out_of_fuel)
    × (feed (parse_status_line number_of) number_of message cleared ≢ err out_of_fuel)
feed-out_of_fuel_example = feed-out_of_fuel number_of (λ radix text. tt) message cleared
