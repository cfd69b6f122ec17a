-- ===== src/Rest/Failures.antt =====
-- service/rest_request_router.cc: what becomes of a request whose route throws.
use soa.Prelude.{
  same_bytes, ◌≡◌, refl, ap, ◌∙◌, Bool, true, false, if-elim, Option, none, List, [], ◌∷◌, ◌++◌,
  codes,
}
use soa.Rest.{Text, RestRequest, Flow, returned, threw}
use soa.Rest.Connections.{
  Connection, Message, json_response, send_error_response, send, already_sent,
}
use soa.Rest.Contexts.{Context, new_context, PathSpec, Found}
use soa.Rest.Routes.{Run, run, MatchResult, mr_no, Router, router, Routes, route, ExtractObject}
use soa.Rest.Help.{JsonOps}
use soa.Rest.Routers.{
  process_route, after_route, after_error, process_request, process_routes, handle_request,
  unless_found,
}

module _ {Json : Type 0} (ops : JsonOps Json) (s : Text → Text → Option Found) where
  sent_flag : (m : Message) (d : Connection) → (send m d).0.response_sent ≡ true
  unfolding send
  sent_flag m d =
      if-elim (λ (r : Connection × Flow Unit). r.0.response_sent ≡ true) d.response_sent _ _
        (λ e. e) (λ _. refl)

  sent_twice :
      (n : Message) (d : Connection) → d.response_sent ≡ true → send n d ≡ (d, threw already_sent)
  unfolding send
  sent_twice n d e =
      if-elim (λ (r : Connection × Flow Unit). r ≡ (d, threw already_sent)) d.response_sent _ _
        (λ _. refl) (λ f. cc)

  -- Nothing is sent behind a response.
  send_again :
      (n m : Message) (d : Connection) → send n (send m d).0 ≡ ((send m d).0, threw already_sent)
  send_again n m d = sent_twice n (send m d).0 (sent_flag m d)

  after_throw :
      (x : Context) (d : Connection) (what : Text) (next : Context → Connection → Run MatchResult)
      → d.response_sent ≡ false
      → after_route (run d x (threw what)) next
        ≡ next x (send_error_response 500 (codes "threw exception: " ++ what) d).0
  unfolding after_route send
  after_throw x d what next unsent =
      let m = json_response 500 (codes "threw exception: " ++ what) in
      let ended = record d { response_sent = true; messages = d.messages ++ (m ∷ []) } in
      if-elim (λ (r : Connection × Flow Unit). after_error r x next ≡ next x r.0) d.response_sent
        (d, threw already_sent) (ended, returned tt) (λ e. cc) (λ _. refl)

  into_routes :
      (rs : Routes Json) (description : Text) (terminal : Bool) (arg_help : Json) (q : RestRequest)
      (x : Context) (c : Connection)
      → same_bytes q.verb (codes "OPTIONS") ≡ false
      → process_request ops s (router none rs description terminal arg_help) q x c
        ≡ process_routes ops s rs q x c
  unfolding process_request
  into_routes rs description terminal arg_help q x c verb = rw verb refl

  one_route :
      (p : PathSpec) (verbs : List Text) (r : Router Json) (e : Option ExtractObject)
      (rs : Routes Json) (q : RestRequest) (x : Context) (c : Connection)
      → process_routes ops s (route p verbs r e rs) q x c
        ≡ after_route
            (process_route s p verbs e (λ y d. process_request ops s r q y d) q x c)
            (λ y d. process_routes ops s rs q y d)
  unfolding process_request
  one_route p verbs r e rs q x c = refl

  -- Where the first route of a root router without a handler throws before it has answered, for a
  -- request other than OPTIONS, and the routes behind it do not match, the answer is 500, and
  -- handleRequest itself throws, since it goes on to send 404 as well.
  pub handle_request-failed :
      (p : PathSpec) (verbs : List Text) (r : Router Json) (e : Option ExtractObject)
      (rs : Routes Json) (description : Text) (terminal : Bool) (arg_help : Json) (q : RestRequest)
      (c d : Connection) (what : Text)
      → same_bytes q.verb (codes "OPTIONS") ≡ false
      → process_route s p verbs e (λ y b. process_request ops s r q y b) q (new_context q) c
        ≡ run d (new_context q) (threw what)
      → d.response_sent ≡ false
      → process_routes ops s rs q
          (new_context q)
          (send_error_response 500 (codes "threw exception: " ++ what) d).0
        ≡ run
            (send_error_response 500 (codes "threw exception: " ++ what) d).0
            (new_context q)
            (returned mr_no)
      → handle_request ops s (router none (route p verbs r e rs) description terminal arg_help) q c
        ≡ ((send_error_response 500 (codes "threw exception: " ++ what) d).0, threw already_sent)
  unfolding handle_request
  handle_request-failed p verbs r e rs description terminal arg_help q c d what verb failed unsent
        unmatched =
      let x = new_context q in
      let m = json_response 500 (codes "threw exception: " ++ what) in
      let rest = λ (y : Context) (b : Connection). process_routes ops s rs q y b in
      ap (unless_found ops s q) (
        into_routes (route p verbs r e rs) description terminal arg_help q x c verb
        ∙ one_route p verbs r e rs q x c
        ∙ ap (λ w. after_route w rest) failed
        ∙ after_throw x d what rest unsent
        ∙ unmatched)
      ∙ send_again
          (json_response 404 (codes "unknown resource " ++ (q.verb ++ (b' ' ∷ q.resource)))) m d
