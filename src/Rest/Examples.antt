-- ===== src/Rest/Examples.antt =====
-- The theorems about REST routers at a concrete router, and tests of the router.
use mathlib.Core.List.{append-nil}
use soa.Prelude.{
  ℕ, ◌+◌, ◌≡◌, refl, sym, true, false, Option, none, some, [], ◌∷◌, ◌++◌, codes, ◌==◌, arith,
}
use soa.Rest.{Text, RestRequest, returned, threw}
use soa.Rest.Connections.{
  Connection, new_connection, response, send, send_error_response, already_sent,
}
use soa.Rest.Contexts.{Context, new_context, add_object, string_path, regex_path, Found, match_path}
use soa.Rest.Routes.{Run, run, MatchResult, mr_yes, Router, router, Routes, no_routes, route}
use soa.Rest.Help.{JsonOps}
use soa.Rest.Routers.{process_request, process_routes, process_route, handle_request, after_route}
use soa.Rest.Keeping.{IsProper, IsLive, send-IsProper}
use soa.Rest.Rounds.{IsPolite}
use soa.Rest.Restoring.{ArePolite, process_routes-context, handle_request-IsProper}
use soa.Rest.Failures.{handle_request-failed}

-- JSON values by the number of texts that were put into them.
abbrev counted : JsonOps ℕ
counted = record {
  empty = 0;
  is_null = λ j. j == 0;
  text = λ t. 1;
  member = λ k change j. j + change 0;
  element = λ i change j. j + change 0;
  to_styled = λ j. j ∷ [];
}

-- A search that finds the rest of the path.
abbrev search_rest : Text → Text → Option Found
search_rest pattern text = some record { prefix_matched = false; whole = text; groups = [] }

abbrev greet : RestRequest → Context → Connection → Run MatchResult
greet q x c =
    run (send (response 200 (codes "hello") (codes "text/plain") []) c).0
      (add_object (record { obj = 8; type_info = 3 }) x) (returned mr_yes)

abbrev fail : RestRequest → Context → Connection → Run MatchResult
fail q x c = run c x (threw (codes "no"))

abbrev leaf : (RestRequest → Context → Connection → Run MatchResult) → Router ℕ
leaf h = router (some h) no_routes [] true 0

-- The first route matches the path but leads nowhere.
abbrev some_routes : Routes ℕ
some_routes =
    route (string_path (codes "/us")) []
      (router none (route (string_path (codes "/x")) [] (leaf greet) none no_routes) [] false 0)
      none
      (route (string_path (codes "/users/")) (codes "GET" ∷ [])
        (router none (route (regex_path (codes ".*") []) [] (leaf greet) none no_routes) [] false 0)
        none no_routes)

abbrev a_router : Router ℕ
a_router = router none some_routes [] false 0

abbrev a_request : RestRequest
a_request = record { verb = codes "GET"; resource = codes "/users/7"; params = []; payload = [] }

greet-IsPolite : IsPolite IsProper greet
greet-IsPolite q x c proper = (
  ([], record { obj = 8; type_info = 3 } ∷ [], sym (append-nil x.resources), refl),
  tt,
  (send-IsProper (response 200 (codes "hello") (codes "text/plain") []) c proper).0,
)

greet_adds : IsPolite (λ c. Unit) greet
greet_adds q x c h =
    (([], record { obj = 8; type_info = 3 } ∷ [], sym (append-nil x.resources), refl), tt, tt)

new-IsProper : IsProper new_connection
new-IsProper = (omega arith, λ _. refl)

process_routes-context_example :
    ((process_routes counted search_rest some_routes a_request
        (new_context a_request)
        new_connection).context
      ≡ new_context a_request)
    × IsLive
        (process_routes counted search_rest some_routes a_request
          (new_context a_request)
          new_connection).flow
unfolding ArePolite
process_routes-context_example =
    process_routes-context counted search_rest some_routes a_request (new_context a_request)
      new_connection
      (tt, (tt, (tt, (greet_adds, tt), tt)), (tt, (tt, (tt, (greet_adds, tt), tt)), tt))

handle_request-IsProper_example :
    IsProper (handle_request counted search_rest a_router a_request new_connection).0
    × IsLive (handle_request counted search_rest a_router a_request new_connection).1
unfolding ArePolite
handle_request-IsProper_example =
    handle_request-IsProper counted search_rest a_router a_request new_connection
      (
        tt,
        (tt, (tt, (tt, (greet-IsPolite, tt), tt)), (tt, (tt, (tt, (greet-IsPolite, tt), tt)), tt)),
      )
      new-IsProper

reached :
    (handle_request counted search_rest a_router a_request new_connection).0.messages
    ≡ response 200 (codes "hello") (codes "text/plain") [] ∷ []
unfolding handle_request process_request process_route after_route send match_path
reached = refl

handle_request-failed_example :
    handle_request counted search_rest
      (router none
        (route (string_path (codes "/users/7")) [] (leaf fail) none no_routes)
        []
        false
        0)
      a_request
      new_connection
    ≡ (
      (send_error_response 500 (codes "threw exception: " ++ codes "no") new_connection).0,
      threw already_sent,
    )
unfolding process_request process_route match_path send
handle_request-failed_example =
    handle_request-failed counted search_rest (string_path (codes "/users/7")) [] (leaf fail) none
      no_routes [] false 0 a_request new_connection new_connection (codes "no") refl refl refl refl
