-- ===== src/Rest/Connections.antt =====
-- service/rest_service_endpoint.h, service/rest_service_endpoint.cc: `ConnectionId`. What the HTTP
-- handler below it is given to send is recorded in order; that handler does not throw.
use soa.Prelude.{ℕ, Bool, true, false, not, List, [], ◌∷◌, ◌++◌, codes, if◌then◌else◌}
use soa.Rest.{Text, Flow, returned, threw}

pub data NextAction : Type 0 where
  next_continue next_close next_recycle : NextAction

-- The calls of the HTTP handler. A `json_response` has a JSON string for its body.
pub data Message : Type 0 where
  response : ℕ → Text → Text → List (Text × Text) → Message
  json_response : ℕ → Text → Message
  header : ℕ → Text → List (Text × Text) → Message
  chunk : Text → NextAction → Message
  payload : Text → Message
  last : NextAction → Message

pub data ContentLength : Type 0 where
  unknown_content_length chunked_encoding : ContentLength
  content_length : ℕ → ContentLength

pub record Connection : Type 0 where
  pub response_sent : Bool
  pub chunked : Bool
  pub keep_alive : Bool
  pub messages : List Message

abbrev pub new_connection : Connection
new_connection = record { response_sent = false; chunked = false; keep_alive = true; messages = [] }

abbrev pub already_sent : Text
already_sent = codes "response already sent"

-- `sendResponse`, `sendHttpResponse`, `sendRedirect` and `sendErrorResponse` are one after another a
-- test, an entry of the log, a call of the handler, and a flag.
unfoldable pub send : Message → Connection → Connection × Flow Unit
send m c =
    if c.response_sent
    then (c, threw already_sent)
    else (record c { response_sent = true; messages = c.messages ++ (m ∷ []) }, returned tt)

abbrev pub send_http_response :
    ℕ → Text → Text → List (Text × Text) → Connection → Connection × Flow Unit
send_http_response code body content_type headers = send (response code body content_type headers)

abbrev pub send_response : ℕ → Text → Text → Connection → Connection × Flow Unit
send_response code body content_type = send (response code body content_type [])

abbrev pub send_redirect : ℕ → Text → Connection → Connection × Flow Unit
send_redirect code location = send (response code [] [] ((codes "Location", location) ∷ []))

abbrev pub send_error_response : ℕ → Text → Connection → Connection × Flow Unit
send_error_response code error = send (json_response code error)

-- The header alone; the flag is not set here. The text of a length is a parameter.
unfoldable pub send_http_response_header :
    (ℕ → Text) → ℕ → Text → ContentLength → List (Text × Text) → Connection → Connection × Flow Unit
send_http_response_header to_text code content_type len headers c =
    if c.response_sent then (c, threw already_sent) else elim len [
      | chunked_encoding ↦ (
        record c {
          chunked = true;
          messages =
              c.messages
              ++ (header code content_type
                    (headers ++ ((codes "Transfer-Encoding", codes "chunked") ∷ []))
                  ∷ []);
        },
        returned tt,
      )
      | content_length n ↦ (
        record c {
          messages =
              c.messages
              ++ (header code content_type (headers ++ ((codes "Content-Length", to_text n) ∷ []))
                  ∷ []);
        },
        returned tt,
      )
      | unknown_content_length ↦ (
        record c {
          keep_alive = false;
          messages = c.messages ++ (header code content_type headers ∷ []);
        },
        returned tt,
      )
    ]

abbrev pub is_empty {ℓ} : {A : Type ℓ} → List A → Bool
is_empty [] = true
is_empty (x ∷ xs) = false

unfoldable pub send_payload : Text → Connection → Connection × Flow Unit
send_payload text c =
    if c.chunked
    then (if is_empty text
        then (c, threw (codes "Can't send empty chunk over a chunked connection"))
        else (record c { messages = c.messages ++ (chunk text next_continue ∷ []) }, returned tt))
    else (record c { messages = c.messages ++ (payload text ∷ []) }, returned tt)

-- The end of a response whose header was sent alone.
abbrev pub closing : Connection → Message
closing c =
    if c.chunked
    then chunk [] next_close
    else if not c.keep_alive
    then last next_close
    else last next_recycle

unfoldable pub finish_response : Connection → Connection
finish_response c = record c { response_sent = true; messages = c.messages ++ (closing c ∷ []) }
