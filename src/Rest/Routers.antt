-- ===== src/Rest/Routers.antt =====
-- service/rest_request_router.cc: the way of a request through the routes.
use soa.Prelude.{
  same_bytes, Bool, true, false, not, ◌||◌, Option, none, some, List, [], ◌∷◌, ◌++◌, codes,
  if◌then◌else◌,
}
use soa.Rest.{Text, RestRequest, Flow, returned, threw, threw_unknown, terminated}
use soa.Rest.Connections.{Connection, send_error_response, send_http_response, is_empty}
use soa.Rest.Contexts.{
  Context, new_context, State, save_state, restore_state, PathSpec, Found, match_path,
}
use soa.Rest.Routes.{
  MatchResult, mr_no, mr_yes, mr_error, mr_async, Run, run, OnProcessRequest, ExtractObject, Router,
  router, Routes, no_routes, route, has_text,
}
use soa.Rest.Help.{JsonOps, Options, options, verbs_text}

-- A filter without verbs takes all of them.
abbrev pub accepts : List Text → Text → Bool
accepts verbs verb = is_empty verbs || has_text verb verbs

abbrev pub with_context : {A : Type 0} → Option Context → Run A → Run A
with_context none r = run r.connection r.context terminated
with_context (some x) r = run r.connection x r.flow

-- The destructor of the guard.
abbrev pub close_guard : {A : Type 0} → State → Run A → Run A
close_guard s r = with_context (restore_state s r.context) r

abbrev pub and_then :
    {A : Type 0} → Run A → (A → Context → Connection → Run MatchResult) → Run MatchResult
and_then r next = elim r.flow [
  | returned a ↦ next a r.context r.connection
  | threw what ↦ run r.connection r.context (threw what)
  | threw_unknown ↦ run r.connection r.context threw_unknown
  | terminated ↦ run r.connection r.context terminated
]

abbrev pub extract : Option ExtractObject → ExtractObject
extract none q x c = run c x (returned tt)
extract (some f) q x c = f q x c

-- The router of a route, unless its extractor has answered.
abbrev pub unless_answered :
    (Context → Connection → Run MatchResult) → Context → Connection → Run MatchResult
unless_answered inner x c = if c.response_sent then run c x (returned mr_yes) else inner x c

-- What is behind the match of the path.
abbrev pub if_matched :
    Option ExtractObject
    → (Context → Connection → Run MatchResult)
    → RestRequest
    → Bool
    → Context
    → Connection
    → Run MatchResult
if_matched e inner q false x c = run c x (returned mr_no)
if_matched e inner q true x c = and_then (extract e q x c) (λ _ y d. unless_answered inner y d)

-- `Route::process`, with the router of the route as a function.
unfoldable pub process_route :
    (Text → Text → Option Found)
    → PathSpec
    → List Text
    → Option ExtractObject
    → (Context → Connection → Run MatchResult)
    → RestRequest
    → Context
    → Connection
    → Run MatchResult
unfolding restore_state
process_route search_regex p verbs e inner q x c =
    if not (accepts verbs q.verb)
    then run c x (returned mr_no)
    else close_guard (save_state x) (
        let m = match_path search_regex p x in
        and_then (run c m.0 m.1) (λ matched y d. if_matched e inner q matched y d))

-- The end of a round of the loop over routes: how it goes on is up to what the route came to.
abbrev pub after_error :
    Connection × Flow Unit → Context → (Context → Connection → Run MatchResult) → Run MatchResult
after_error (c, returned u) x next = next x c
after_error (c, threw what) x next = run c x (threw what)
after_error (c, threw_unknown) x next = run c x threw_unknown
after_error (c, terminated) x next = run c x terminated

abbrev pub answer_or_next :
    MatchResult → Run MatchResult → (Context → Connection → Run MatchResult) → Run MatchResult
answer_or_next mr_no r next = next r.context r.connection
answer_or_next _ r next = r

unfoldable pub after_route :
    Run MatchResult → (Context → Connection → Run MatchResult) → Run MatchResult
after_route r next = elim r.flow [
  | returned m ↦ answer_or_next m r next
  | threw what ↦
      after_error (send_error_response 500 (codes "threw exception: " ++ what) r.connection)
        r.context next
  | threw_unknown ↦
      after_error (send_error_response 500 (codes "unknown exception") r.connection) r.context next
  | terminated ↦ r
]

abbrev pub handles : {A : Type 0} → Option A → Bool → Context → Bool
handles none terminal x = false
handles (some h) terminal x = not terminal || is_empty x.remaining

abbrev pub root : Option OnProcessRequest → OnProcessRequest
root none q x c = run c x (returned mr_no)
root (some h) q x c = h q x c

-- The answer to `OPTIONS`.
abbrev pub answer_options :
    {Json : Type 0} → JsonOps Json → Context × Flow (Options Json) → Connection → Run MatchResult
answer_options ops (x, returned o) c =
    let allow = (codes "Allow", verbs_text o.verbs) ∷ [] in
    let sent =
      if is_empty o.verbs
      then send_http_response 400 [] [] allow c
      else send_http_response 200 (ops.to_styled o.help) (codes "application/json") allow c in
    and_then (run sent.0 x sent.1) (λ _ y d. run d y (returned mr_yes))
answer_options ops (x, threw what) c = run c x (threw what)
answer_options ops (x, threw_unknown) c = run c x threw_unknown
answer_options ops (x, terminated) c = run c x terminated

module _ {Json : Type 0} (ops : JsonOps Json) (search_regex : Text → Text → Option Found) where
  unfoldable mutual
    pub process_request : Router Json → RestRequest → Context → Connection → Run MatchResult
    process_request (router h rs description terminal arg_help) q x c =
        if same_bytes q.verb (codes "OPTIONS")
        then answer_options ops
            (options ops search_regex rs (record { verbs = []; help = ops.empty }) x) c
        else if handles h terminal x
        then root h q x c
        else process_routes rs q x c

    pub process_routes : Routes Json → RestRequest → Context → Connection → Run MatchResult
    process_routes no_routes q x c = run c x (returned mr_no)
    process_routes (route p verbs r e rs) q x c =
        after_route (process_route search_regex p verbs e (λ y d. process_request r q y d) q x c)
          (λ y d. process_routes rs q y d)

  abbrev pub unless_found : RestRequest → Run MatchResult → Connection × Flow Unit
  unless_found q r = elim r.flow [
    | returned m ↦ elim m [
      | mr_no ↦
          send_error_response 404 (codes "unknown resource " ++ (q.verb ++ (b' ' ∷ q.resource)))
            r.connection
      | mr_yes ↦ (r.connection, returned tt)
      | mr_error ↦ (r.connection, returned tt)
      | mr_async ↦ (r.connection, returned tt)
    ]
    | threw what ↦ (r.connection, threw what)
    | threw_unknown ↦ (r.connection, threw_unknown)
    | terminated ↦ (r.connection, terminated)
  ]

  unfoldable pub handle_request : Router Json → RestRequest → Connection → Connection × Flow Unit
  unfolding process_request
  handle_request r q c = unless_found q (process_request r q (new_context q) c)
