-- ===== src/Rest/Selection.antt =====
-- service/rest_request_router.cc: which handler a request reaches. The description here has no
-- connection, and no context that is changed and put back.
use soa.Prelude.{Bool, true, false, if◌then◌else◌, Option, none, some}
use soa.Rest.{Text, RestRequest, Flow, returned, threw, threw_unknown, terminated}
use soa.Rest.Connections.{Connection}
use soa.Rest.Contexts.{Context, PathSpec, no_path, string_path, regex_path, Found, match_path}
use soa.Rest.Routes.{
  MatchResult, mr_no, mr_yes, mr_error, mr_async, Router, router, Routes, no_routes, route,
  OnProcessRequest,
}
use soa.Rest.Routers.{handles, root, accepts}
use soa.Rest.Keeping.{Grows}

-- A handler and the context that it is called with.
abbrev pub Choice : Type 0
Choice = Option OnProcessRequest × Context

abbrev pub or_else : Option Choice → Option Choice → Option Choice
or_else (some a) rest = some a
or_else none rest = rest

abbrev pub select_at : (Context → Option Choice) → Context × Flow Bool → Option Choice
select_at pick (y, returned true) = pick y
select_at pick (y, returned false) = none
select_at pick (y, threw what) = none
select_at pick (y, threw_unknown) = none
select_at pick (y, terminated) = none

-- The first route that takes the verb, matches the path and leads to a handler.
unfoldable mutual
  pub select_request :
      {Json : Type 0}
      → (Text → Text → Option Found)
      → Router Json
      → RestRequest
      → Context
      → Option Choice
  select_request s (router h rs description terminal arg_help) q x =
      if handles h terminal x then some (h, x) else select_routes s rs q x

  pub select_routes :
      {Json : Type 0}
      → (Text → Text → Option Found)
      → Routes Json
      → RestRequest
      → Context
      → Option Choice
  select_routes s no_routes q x = none
  select_routes s (route p verbs r e rs) q x =
      or_else
        (if accepts verbs q.verb
          then select_at (λ y. select_request s r q y) (match_path s p x)
          else none)
        (select_routes s rs q x)

-- Any answer but MR_NO.
abbrev pub IsDecided : Flow MatchResult → Type 0
IsDecided (returned mr_no) = ⊥
IsDecided (returned mr_yes) = Unit
IsDecided (returned mr_error) = Unit
IsDecided (returned mr_async) = Unit
IsDecided (threw what) = ⊥
IsDecided threw_unknown = ⊥
IsDecided terminated = ⊥

-- A handler that answers, and only adds to the context.
abbrev pub IsDecisive : Option OnProcessRequest → Type 0
IsDecisive h =
    (q : RestRequest) (x : Context) (c : Connection)
    → Grows x (root h q x c).context × IsDecided (root h q x c).flow

abbrev pub IsMissing : {A : Type 0} → Option A → Type 0
IsMissing none = Unit
IsMissing (some a) = ⊥

abbrev pub IsDecisiveOption : Option OnProcessRequest → Type 0
IsDecisiveOption none = Unit
IsDecisiveOption (some h) = IsDecisive (some h)

abbrev pub IsPath : PathSpec → Type 0
IsPath no_path = ⊥
IsPath (string_path p) = Unit
IsPath (regex_path p desc) = Unit

-- Every handler is decisive, every route has a path, and none has an extractor.
unfoldable mutual
  pub AreDecisive : {Json : Type 0} → Router Json → Type 0
  AreDecisive (router h rs description terminal arg_help) =
      IsDecisiveOption h × AreDecisiveRoutes rs

  pub AreDecisiveRoutes : {Json : Type 0} → Routes Json → Type 0
  AreDecisiveRoutes no_routes = Unit
  AreDecisiveRoutes (route p verbs r e rs) =
      IsPath p × IsMissing e × AreDecisive r × AreDecisiveRoutes rs
