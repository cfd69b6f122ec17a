-- ===== src/Rest/Restoring.antt =====
-- service/rest_request_router.cc: what the router keeps, whatever its routes are.
use soa.Prelude.{same_bytes, ◌≡◌, refl, sym, subst, if-elim, Option, none, some, [], codes}
use soa.Rest.{Text, RestRequest, Flow, returned, threw, threw_unknown, terminated}
use soa.Rest.Connections.{Connection, is_empty}
use soa.Rest.Contexts.{Context, new_context, Found}
use soa.Rest.Routes.{
  Run, run, MatchResult, mr_no, mr_yes, mr_error, mr_async, Router, router, Routes, no_routes,
  route, OnProcessRequest,
}
use soa.Rest.Help.{JsonOps, Options, options}
use soa.Rest.Routers.{
  handles, root, answer_options, process_request, process_routes, handle_request, unless_found,
  and_then,
}
use soa.Rest.Keeping.{
  IsLive, Grows-refl, IsProper, send-IsProper, KeptBySend, send-IsLive, Fine, Restored,
}
use soa.Rest.Helping.{Kept, options-Kept}
use soa.Rest.Rounds.{
  Restored-Fine, IsPolite, IsPoliteOption, process_route-Restored, after_route-Restored,
}

module _ (P : Connection → Type 0) where
  -- Every handler and extractor below a router is polite.
  unfoldable mutual
    pub ArePolite : {Json : Type 0} → Router Json → Type 0
    ArePolite (router h rs description terminal arg_help) = IsPoliteOption P h × ArePoliteRoutes rs

    pub ArePoliteRoutes : {Json : Type 0} → Routes Json → Type 0
    ArePoliteRoutes no_routes = Unit
    ArePoliteRoutes (route p verbs r e rs) = IsPoliteOption P e × ArePolite r × ArePoliteRoutes rs

module _ {Json : Type 0} (ops : JsonOps Json) (s : Text → Text → Option Found)
    (P : Connection → Type 0) (sends : KeptBySend P) where
  answered-Restored :
      (x : Context) (sent : Connection × Flow Unit)
      → P sent.0 × IsLive sent.1
      → Restored P x (and_then (run sent.0 x sent.1) (λ _ y d. run d y (returned mr_yes)))
  answered-Restored x (c, returned u) (proper, live) = (refl, tt, proper)
  answered-Restored x (c, threw what) (proper, live) = (refl, tt, proper)
  answered-Restored x (c, threw_unknown) (proper, live) = (refl, tt, proper)
  answered-Restored x (c, terminated) (proper, live) = absurd live

  answer_options-Restored :
      (x : Context) (r : Context × Flow (Options Json)) (c : Connection)
      → Kept ops x r
      → P c
      → Restored P x (answer_options ops r c)
  answer_options-Restored x (y, returned o) c (same, live) proper =
      subst (λ z. Restored P x (answer_options ops (z, returned o) c)) (sym same)
        (answered-Restored x _ (
          if-elim (λ (r : Connection × Flow Unit). P r.0 × IsLive r.1) (is_empty o.verbs) _ _
            (λ _. sends _ c proper) (λ _. sends _ c proper)))
  answer_options-Restored x (y, threw what) c (same, live) proper = (same, tt, proper)
  answer_options-Restored x (y, threw_unknown) c (same, live) proper = (same, tt, proper)
  answer_options-Restored x (y, terminated) c (same, live) proper = absurd live

  root-Fine : (h : Option OnProcessRequest) → IsPoliteOption P h → IsPolite P (root h)
  root-Fine none polite q x c proper = (Grows-refl x, tt, proper)
  root-Fine (some h) polite q x c proper = polite q x c proper

  mutual
    unfolding process_request ArePolite

    pub process_request-Fine :
        (r : Router Json) (q : RestRequest) (x : Context) (c : Connection)
        → ArePolite P r
        → P c
        → Fine P x (process_request ops s r q x c)
    process_request-Fine (router h rs description terminal arg_help) q x c (polite, below) proper =
        let help = options ops s rs (record { verbs = []; help = ops.empty }) x in
        let helped = answer_options ops help c in
        let routed = process_routes ops s rs q x c in
        if-elim (λ (r : Run MatchResult). Fine P x r) (same_bytes q.verb (codes "OPTIONS")) _ _
          (λ _.
            Restored-Fine P sends x helped
              (answer_options-Restored x help c (options-Kept ops s rs _ x) proper))
          (λ _.
            if-elim (λ (r : Run MatchResult). Fine P x r) (handles h terminal x) (root h q x c)
              routed (λ _. root-Fine h polite q x c proper)
              (λ _. Restored-Fine P sends x routed (process_routes-Restored rs q x c below proper)))

    pub process_routes-Restored :
        (rs : Routes Json) (q : RestRequest) (x : Context) (c : Connection)
        → ArePoliteRoutes P rs
        → P c
        → Restored P x (process_routes ops s rs q x c)
    process_routes-Restored no_routes q x c polite proper = (refl, tt, proper)
    process_routes-Restored (route p verbs r e rs) q x c (polite, below, others) proper =
        after_route-Restored P sends x (λ y d. process_routes ops s rs q y d)
          (λ d ok_d. process_routes-Restored rs q x d others ok_d) _
          (process_route-Restored P sends s p verbs e (λ y d. process_request ops s r q y d) q
            polite (λ y d ok_d. process_request-Fine r q y d below ok_d) x c proper)

module _ {Json : Type 0} (ops : JsonOps Json) (s : Text → Text → Option Found) where
  -- Where the handlers and extractors only add to the context and end without leaving a destructor, the
  -- loop over the routes of a router gives the context back as it was, whatever the routes have matched
  -- and added and however they have failed, and does not end the process.
  pub process_routes-context :
      (rs : Routes Json) (q : RestRequest) (x : Context) (c : Connection)
      → ArePoliteRoutes (λ d. Unit) rs
      → ((process_routes ops s rs q x c).context ≡ x) × IsLive (process_routes ops s rs q x c).flow
  process_routes-context rs q x c polite =
      let (same, live, still) =
        process_routes-Restored ops s (λ d. Unit) send-IsLive rs q x c polite tt in
      (same, live)

  unless_found-IsProper :
      (q : RestRequest) (c : Connection) (x : Context) (f : Flow MatchResult)
      → IsLive f
      → IsProper c
      → IsProper (unless_found ops s q (run c x f)).0 × IsLive (unless_found ops s q (run c x f)).1
  unless_found-IsProper q c x (returned mr_no) live proper = send-IsProper _ c proper
  unless_found-IsProper q c x (returned mr_yes) live proper = (proper, tt)
  unless_found-IsProper q c x (returned mr_error) live proper = (proper, tt)
  unless_found-IsProper q c x (returned mr_async) live proper = (proper, tt)
  unless_found-IsProper q c x (threw what) live proper = (proper, tt)
  unless_found-IsProper q c x threw_unknown live proper = (proper, tt)
  unless_found-IsProper q c x terminated live proper = absurd live

  -- Let every handler and extractor only add to the context, end without leaving a destructor, and,
  -- given a connection on which at most one response has been begun and none while the flag is clear,
  -- leave one like that, whatever it returns or throws: one that sends a header alone also finishes that
  -- response. Then handleRequest, on such a connection, leaves one like that too, whole responses and
  -- headers counted alike, and the process goes on.
  pub handle_request-IsProper :
      (r : Router Json) (q : RestRequest) (c : Connection)
      → ArePolite IsProper r
      → IsProper c
      → IsProper (handle_request ops s r q c).0 × IsLive (handle_request ops s r q c).1
  unfolding handle_request
  handle_request-IsProper r q c polite proper =
      let went = process_request ops s r q (new_context q) c in
      let (grows, live, still) =
        process_request-Fine ops s IsProper send-IsProper r q (new_context q) c polite proper in
      unless_found-IsProper q went.connection went.context went.flow live still
