-- ===== src/Rest.antt =====
-- service/rest_service_endpoint.h, service/rest_service_endpoint.cc and
-- service/rest_request_router.h, service/rest_request_router.cc: REST requests, their connections and
-- their routes. Texts are lists of bytes.
pub mod Connections
pub mod Contexts
pub mod Routes
pub mod Help
pub mod Routers
pub mod Keeping
pub mod Rounds
pub mod Helping
pub mod Restoring
pub mod Selection
pub mod Answering
pub mod Reaching
pub mod Failures
mod Examples
use soa.Prelude.{ℕ, List, Bool, Option}

abbrev pub Text : Type 0
Text = List ℕ

pub record RestRequest : Type 0 where
  pub verb : Text
  pub resource : Text
  pub params : List (Text × Text)
  pub payload : Text

-- What a call comes to: a value, an exception with its text, one of another class, or the end of the
-- process by an exception that leaves a destructor.
pub data Flow (A : Type 0) : Type 0 where
  returned : A → Flow A
  threw : Text → Flow A
  threw_unknown : Flow A
  terminated : Flow A
