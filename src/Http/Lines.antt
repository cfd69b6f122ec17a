-- ===== src/Http/Lines.antt =====
-- service/http_parsers.cc: scanning, and the first lines of requests and responses.
use soa.Prelude.{
  ℕ, Bool, true, false, ◌&&◌, ◌||◌, Option, none, some, List, [], ◌∷◌, ok, err, ◌>>=◌, length, drop,
  ltb, ◌==◌, if◌then◌else◌,
}
use soa.Http.{
  unexpected_end_of_line, expected_lf, bad_version, version_too_long, code_too_long, over_read,
  on_request_start, on_response_start, Run, Result, emit, commit, upto,
}

-- The characters, in ASCII.
abbrev pub cr : ℕ
cr = 13

abbrev pub lf : ℕ
lf = 10

abbrev pub space : ℕ
space = 32

-- `skipToChar`: where the character is, or nothing for false.
unfoldable pub skip_to_char : ℕ → Bool → List ℕ → Result (Option (List ℕ))
skip_to_char c throw_on_eol [] = ok none
skip_to_char c throw_on_eol (x ∷ xs) =
    if x == c
    then ok (some (x ∷ xs))
    else if throw_on_eol && (x == cr || x == lf)
    then err unexpected_end_of_line
    else skip_to_char c throw_on_eol xs

-- The rest of a parse function where `skipToChar` does not return false, and what it does there.
abbrev pub found : {A : Type 0} → Result A → (List ℕ → Result A) → Option (List ℕ) → Result A
found otherwise next none = otherwise
found otherwise next (some r) = next r

-- A byte at a pointer. Behind the bytes of `buffer_` stands a 0.
abbrev pub peek : Bool → List ℕ → Result ℕ
peek from_buffer (x ∷ xs) = ok x
peek true [] = ok 0
peek false [] = err over_read

-- `memcmp` with a text, up to the first byte that differs.
unfoldable pub starts_with : Bool → List ℕ → List ℕ → Result Bool
starts_with from_buffer [] r = ok true
starts_with from_buffer (t ∷ ts) [] = peek from_buffer [] >>= λ x. ok false
starts_with from_buffer (t ∷ ts) (x ∷ xs) =
    if x == t then starts_with from_buffer ts xs else ok false

-- "HTTP/"
abbrev pub http_slash : List ℕ
http_slash = 72 ∷ 84 ∷ 84 ∷ 80 ∷ 47 ∷ []

unfoldable pub expect_version : Bool → List ℕ → Result (Unit {0})
unfolding starts_with
expect_version from_buffer r =
    starts_with from_buffer http_slash r >>= λ same. if same then ok tt else err bad_version

-- From the end of the line on, the `\r` included: nothing where the `\n` is not there yet.
abbrev pub end_of_line : List ℕ → Result (Option (List ℕ))
end_of_line [] = ok none
end_of_line (x ∷ []) = ok none
end_of_line (x ∷ y ∷ r) = if y == lf then ok (some r) else err expected_lf

-- `HttpRequestParser::parseFirstLine`
unfoldable pub parse_request_line : Run → Result (Bool × Run)
unfolding skip_to_char expect_version
parse_request_line s =
    let more : Result (Bool × Run) = ok (false, s) in
    skip_to_char space true s.rest
    >>= found more (λ method_end.
      let url = drop 1 method_end in
      skip_to_char space true url
      >>= found more (λ url_end.
        let version = drop 1 url_end in
        expect_version s.from_buffer version >>= λ _.
        skip_to_char cr false version
        >>= found more (λ version_end.
          end_of_line version_end
          >>= found more (λ r. ok (
            true,
            emit
                (on_request_start (upto s.rest method_end) (upto url url_end)
                  (upto version version_end))
                (commit r s),
          )))))

-- `HttpResponseParser::parseFirstLine`. The version is the bytes before its end, from the first that
-- were given on.
unfoldable pub parse_status_line : (ℕ → List ℕ → Result ℕ) → Run → Result (Bool × Run)
unfolding skip_to_char expect_version
parse_status_line antoi s =
    let more : Result (Bool × Run) = ok (false, s) in
    if ltb (length s.rest) 16
    then more
    else expect_version s.from_buffer s.rest >>= λ _.
        skip_to_char space true (drop 5 s.rest)
        >>= found (err version_too_long) (λ version_end.
          let code = drop 1 version_end in
          skip_to_char space true code
          >>= found (err code_too_long) (λ code_end. antoi 10 (upto code code_end) >>= λ number.
              skip_to_char cr false code_end
              >>= found more (λ line_end.
                end_of_line line_end
                >>= found more (λ r. ok (
                  true,
                  emit (on_response_start (upto s.bytes version_end) number) (commit r s),
                )))))
