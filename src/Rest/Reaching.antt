-- ===== src/Rest/Reaching.antt =====
-- service/rest_request_router.cc: a request reaches the handler that the description selects, and no
-- other.
use soa.Prelude.{
  same_bytes, ◌≡◌, refl, Bool, true, false, if◌then◌else◌, Option, none, some, ◌∷◌, ◌++◌, codes,
}
use soa.Rest.{Text, RestRequest, Flow, returned}
use soa.Rest.Connections.{Connection, send_error_response}
use soa.Rest.Contexts.{Context, Found, match_path}
use soa.Rest.Routes.{Run, MatchResult, Router, router, Routes, no_routes, route, OnProcessRequest}
use soa.Rest.Help.{JsonOps}
use soa.Rest.Routers.{handles, root, accepts, process_route, process_request, process_routes}
use soa.Rest.Selection.{
  Choice, select_at, select_request, select_routes, IsDecisive, IsDecisiveOption, AreDecisive,
  AreDecisiveRoutes,
}
use soa.Rest.Answering.{Answered, process_route-Answered, after_route-Answered}

module _ {Json : Type 0} (ops : JsonOps Json) (s : Text → Text → Option Found) where
  handles-root :
      (h : Option OnProcessRequest) (terminal : Bool) (x : Context)
      → handles h terminal x ≡ true
      → IsDecisiveOption h
      → IsDecisive h
  handles-root none terminal x e decisive = cc
  handles-root (some h) terminal x e decisive = decisive

  module _ (q : RestRequest) (c : Connection) (unsent : c.response_sent ≡ false) where
    root-Answered :
        (h : Option OnProcessRequest) (x : Context)
        → IsDecisive h
        → Answered q c x (root h q x c) (some (h, x))
    root-Answered h x decisive =
        let (grows, decided) = decisive q x c in (refl, refl, decided, grows)

    chosen :
        (b : Bool) (h : Option OnProcessRequest) (x : Context) (r : Run MatchResult)
        (o : Option Choice)
        → (b ≡ true → IsDecisive h)
        → Answered q c x r o
        → Answered q c x (if b then root h q x c else r) (if b then some (h, x) else o)
    chosen true h x r o decisive answered = root-Answered h x (decisive refl)
    chosen false h x r o decisive answered = answered

    mutual
      unfolding process_request select_request AreDecisive

      process_request-Answered :
          (r : Router Json) (x : Context)
          → same_bytes q.verb (codes "OPTIONS") ≡ false
          → AreDecisive r
          → Answered q c x (process_request ops s r q x c) (select_request s r q x)
      process_request-Answered (router h rs description terminal arg_help) x verb
            (decisive, below) =
          rw verb (
            chosen (handles h terminal x) h x (process_routes ops s rs q x c)
              (select_routes s rs q x) (λ e. handles-root h terminal x e decisive)
              (process_routes-Answered rs x verb below))

      process_routes-Answered :
          (rs : Routes Json) (x : Context)
          → same_bytes q.verb (codes "OPTIONS") ≡ false
          → AreDecisiveRoutes rs
          → Answered q c x (process_routes ops s rs q x c) (select_routes s rs q x)
      process_routes-Answered no_routes x verb decisive = refl
      process_routes-Answered (route p verbs r e rs) x verb (path, missing, below, others) =
          let inner = λ (y : Context) (d : Connection). process_request ops s r q y d in
          let pick = λ (y : Context). select_request s r q y in
          after_route-Answered q c x (process_route s p verbs e inner q x c)
            (if accepts verbs q.verb then select_at pick (match_path s p x) else none)
            (select_routes s rs q x) (λ y d. process_routes ops s rs q y d)
            (process_route-Answered q c inner pick unsent
              (λ y. process_request-Answered r y verb below) s p verbs e x path missing)
            (process_routes-Answered rs x verb others)

  -- What is to come of a request for which there is a choice, or none.
  abbrev pub outcome : RestRequest → Connection → Option Choice → Connection × Flow Unit
  outcome q c none =
      send_error_response 404 (codes "unknown resource " ++ (q.verb ++ (b' ' ∷ q.resource))) c
  outcome q c (some (h, y)) = ((root h q y c).connection, returned tt)
