-- ===== src/Http.antt =====
-- service/http_parsers.h, service/http_parsers.cc: the state of an HTTP parser. Bytes are numbers. A
-- pointer into the bytes that are parsed is kept as the bytes from there to their end.
pub mod Lines
pub mod Headers
pub mod Bodies
pub mod Feed
pub mod Pieces
pub mod Starts
pub mod Progress
pub mod Rounds
pub mod Termination
mod Examples
use soa.Prelude.{ℕ, Bool, true, false, List, [], ◌∷◌, ◌++◌, Outcome, ok, err, length, take, ◌-◌}

pub data Stage : Type 0 where
  first_line headers body : Stage

-- What the parser throws. A read past bytes that the caller gave is over_read.
pub data Fault : Type 0 where
  unexpected_end_of_line expected_lf bad_version version_too_long code_too_long : Fault
  bad_number over_read out_of_fuel : Fault

-- The callbacks with their arguments.
pub data Event : Type 0 where
  on_request_start : List ℕ → List ℕ → List ℕ → Event
  on_response_start : List ℕ → ℕ → Event
  on_header on_data : List ℕ → Event
  on_done : Bool → Event

pub record Parser : Type 0 where
  pub expect_body : Bool
  pub stage : Stage
  pub buffer : List ℕ
  pub remaining_body : ℕ
  pub use_chunked_encoding : Bool
  pub require_close : Bool

-- `clear`
abbrev pub cleared : Parser
cleared = record {
  expect_body = true;
  stage = first_line;
  buffer = [];
  remaining_body = 0;
  use_chunked_encoding = false;
  require_close = false;
}

-- A parser with its BufferState during `feed`, and the callbacks so far: all the bytes, those from
-- `ptr` on, and those from `commited` on.
pub record Run : Type 0 where
  pub parser : Parser
  pub bytes : List ℕ
  pub rest : List ℕ
  pub uncommited : List ℕ
  pub from_buffer : Bool
  pub events : List Event

abbrev pub Result : Type 0 → Type 0
Result A = Outcome Fault A

abbrev pub emit : Event → Run → Run
emit e s = record s { events = s.events ++ (e ∷ []) }

-- Move `ptr` and commit it.
abbrev pub commit : List ℕ → Run → Run
commit r s = record s { rest = r; uncommited = r }

-- The bytes from one pointer to another.
abbrev pub upto : List ℕ → List ℕ → List ℕ
upto from to = take (length from - length to) from
