-- ===== src/Rest/Helping.antt =====
-- service/rest_request_router.cc: `getHelp` and `options` come to an end, and leave the context as it was.
use soa.Prelude.{◌≡◌, refl, sym, subst, Bool, true, false, if-elim, if◌then◌else◌, Option, List, []}
use soa.Rest.{Text, Flow, returned, threw, threw_unknown, terminated}
use soa.Rest.Connections.{is_empty}
use soa.Rest.Contexts.{
  Context, save_state, restore_state, PathSpec, no_path, string_path, regex_path, Found, match_path,
}
use soa.Rest.Routes.{Router, router, Routes, no_routes, route}
use soa.Rest.Help.{
  JsonOps, Options, options, route_options, route_matched, options_then, guarded_options, flow_then,
  path_help, route_help, add_route_help, get_help, get_help_routes,
}
use soa.Rest.Keeping.{IsLive, Grows, Grows-refl, Grows-trans, restore_state-Grows, match_path-Grows}

module _ {Json : Type 0} (ops : JsonOps Json) where
  flow_then-IsLive :
      {A B : Type 0} (f : Flow A) (next : A → Flow B)
      → IsLive f
      → ((a : A) → IsLive (next a))
      → IsLive (flow_then f next)
  flow_then-IsLive (returned a) next h k = k a
  flow_then-IsLive (threw what) next h k = tt
  flow_then-IsLive threw_unknown next h k = tt
  flow_then-IsLive terminated next h k = absurd h

  path_help-IsLive : (p : PathSpec) → IsLive (path_help ops p)
  path_help-IsLive no_path = tt
  path_help-IsLive (string_path p) = tt
  path_help-IsLive (regex_path p desc) = tt

  route_help-IsLive :
      (t : Text) (p : PathSpec) (verbs : List Text) (j : Json) → IsLive (route_help ops t p verbs j)
  route_help-IsLive t p verbs j =
      flow_then-IsLive (path_help ops p) _ (path_help-IsLive p) (λ put. tt)

  mutual
    unfolding get_help

    get_help-IsLive :
        (r : Router Json) (t : Text) (verbs : List Text) (j : Json)
        → IsLive (get_help ops r t verbs j)
    get_help-IsLive (router h rs description terminal arg_help) t verbs j =
        get_help_routes-IsLive rs t _

    get_help_routes-IsLive :
        (rs : Routes Json) (t : Text) (j : Json) → IsLive (get_help_routes ops rs t j)
    get_help_routes-IsLive no_routes t j = tt
    get_help_routes-IsLive (route p verbs r e rs) t j =
        flow_then-IsLive (route_help ops _ p verbs j) _ (route_help-IsLive _ p verbs j) (λ k.
          flow_then-IsLive (get_help ops r _ verbs k) _ (get_help-IsLive r _ verbs k)
            (λ l. get_help_routes-IsLive rs t l))

  -- What `options` leaves of a context.
  abbrev pub Kept : Context → Context × Flow (Options Json) → Type 0
  Kept x r = (r.0 ≡ x) × IsLive r.1

  add_route_help-IsLive :
      (p : PathSpec) (verbs : List Text) (r : Router Json) (t : Text) (o : Options Json)
      → IsLive (add_route_help ops p verbs (λ j. get_help ops r t verbs j) o)
  add_route_help-IsLive p verbs r t o =
      flow_then-IsLive (route_help ops [] p verbs o.help) _ (route_help-IsLive [] p verbs o.help)
        (λ j. flow_then-IsLive (get_help ops r t verbs j) _ (get_help-IsLive r t verbs j) (λ k. tt))

  guarded_options-Kept :
      (x : Context) (r : Context × Flow (Options Json))
      → Grows x r.0 × IsLive r.1
      → Kept x (guarded_options ops (restore_state (save_state x) r.0) r)
  guarded_options-Kept x r (grows, live) =
      subst (λ o. Kept x (guarded_options ops o r)) (sym (restore_state-Grows x r.0 grows))
        (refl, live)

  options_then-Grown :
      {A : Type 0} (x y : Context) (f : Flow A) (next : A → Context → Context × Flow (Options Json))
      → Grows x y
      → IsLive f
      → ((a : A) → Grows x (next a y).0 × IsLive (next a y).1)
      → Grows x (options_then ops (y, f) next).0 × IsLive (options_then ops (y, f) next).1
  options_then-Grown x y (returned a) next g live h = h a
  options_then-Grown x y (threw what) next g live h = (g, live)
  options_then-Grown x y threw_unknown next g live h = (g, live)
  options_then-Grown x y terminated next g live h = absurd live

  Kept-Grown :
      (x : Context) (r : Context × Flow (Options Json)) → Kept x r → Grows x r.0 × IsLive r.1
  Kept-Grown x r (same, live) = (subst (λ y. Grows x y) (sym same) (Grows-refl x), live)

  options_then-Kept :
      (x : Context) (r : Context × Flow (Options Json))
      (next : Options Json → Context → Context × Flow (Options Json))
      → Kept x r
      → ((o : Options Json) → Kept x (next o x))
      → Kept x (options_then ops r next)
  options_then-Kept x (y, returned o) next (same, live) h =
      subst (λ z. Kept x (next o z)) (sym same) (h o)
  options_then-Kept x (y, threw what) next (same, live) h = (same, live)
  options_then-Kept x (y, threw_unknown) next (same, live) h = (same, live)
  options_then-Kept x (y, terminated) next (same, live) h = absurd live

  module _ (s : Text → Text → Option Found) where
    module _ (p : PathSpec) (verbs : List Text) (router_help : Json → Flow Json)
        (inner : Options Json → Context → Context × Flow (Options Json))
        (helps : (o : Options Json) → IsLive (add_route_help ops p verbs router_help o))
        (kept : (o : Options Json) (x : Context) → Kept x (inner o x)) where
      matched-Grows :
          (o : Options Json) (matched : Bool) (y : Context)
          → Grows y (route_matched ops p verbs router_help inner o matched y).0
            × IsLive (route_matched ops p verbs router_help inner o matched y).1
      matched-Grows o false y = (Grows-refl y, tt)
      matched-Grows o true y =
          options_then-Grown y y
            (if is_empty y.remaining then add_route_help ops p verbs router_help o else returned o)
            inner (Grows-refl y)
            (if-elim (λ (f : Flow (Options Json)). IsLive f) (is_empty y.remaining) _ _
              (λ _. helps o) (λ _. tt))
            (λ n. Kept-Grown y (inner n y) (kept n y))

      route_options-Kept :
          (o : Options Json) (x : Context)
          → Kept x (route_options ops s p verbs router_help inner o x)
      unfolding route_options
      route_options-Kept o x =
          let m = match_path s p x in
          let (grows, live) = match_path-Grows s p x in
          guarded_options-Kept x _ (
            options_then-Grown x m.0 m.1
              (λ matched y. route_matched ops p verbs router_help inner o matched y) grows live
              (λ matched.
                let (more, alive) = matched-Grows o matched m.0 in
                (
                  Grows-trans x m.0 (route_matched ops p verbs router_help inner o matched m.0).0
                      grows more,
                  alive,
                )))

    pub options-Kept :
        (rs : Routes Json) (o : Options Json) (x : Context) → Kept x (options ops s rs o x)
    unfolding options
    options-Kept no_routes o x = (refl, tt)
    options-Kept (route p verbs (router h subs description terminal arg_help) e rs) o x =
        options_then-Kept x _ (λ n y. options ops s rs n y)
          (route_options-Kept p verbs _ (λ n y. options ops s subs n y)
            (λ n. add_route_help-IsLive p verbs (router h subs description terminal arg_help) [] n)
            (λ n y. options-Kept subs n y) o x)
          (λ n. options-Kept rs n x)
