-- ===== src/Rest/Routes.antt =====
-- service/rest_request_router.h: routers, their routes, and what the handlers of the user are. Those are
-- functions of the request that may send responses, change the context, and throw.
use soa.Prelude.{same_bytes, Bool, false, ◌||◌, Option, List, [], ◌∷◌}
use soa.Rest.{Text, RestRequest, Flow}
use soa.Rest.Connections.{Connection}
use soa.Rest.Contexts.{Context, PathSpec}

pub data MatchResult : Type 0 where
  mr_no mr_yes mr_error mr_async : MatchResult

-- What a call leaves: the connection, the context, and how the call ended.
pub record Run (A : Type 0) : Type 0 where
  pub connection : Connection
  pub context : Context
  pub flow : Flow A

abbrev pub run : {A : Type 0} → Connection → Context → Flow A → Run A
run c x f = record { connection = c; context = x; flow = f }

abbrev pub OnProcessRequest : Type 0
OnProcessRequest = RestRequest → Context → Connection → Run MatchResult

abbrev pub ExtractObject : Type 0
ExtractObject = RestRequest → Context → Connection → Run Unit

-- A JSON value is one of another library.
mutual
  pub data Router (Json : Type 0) : Type 0 where
    router : Option OnProcessRequest → Routes Json → Text → Bool → Json → Router Json

  -- The verbs stand in their order, each once.
  pub data Routes (Json : Type 0) : Type 0 where
    no_routes : Routes Json
    route : PathSpec → List Text → Router Json → Option ExtractObject → Routes Json → Routes Json

abbrev pub has_text : Text → List Text → Bool
has_text t [] = false
has_text t (s ∷ ss) = same_bytes t s || has_text t ss
