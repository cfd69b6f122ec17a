-- ===== src/Rest/Help.antt =====
-- service/rest_request_router.h, service/rest_request_router.cc: `getHelp` and `options`.
use soa.Prelude.{
  same_bytes, ℕ, ◌+◌, Bool, true, false, ◌&&◌, ◌||◌, Option, none, some, List, [], ◌∷◌, ◌++◌, codes,
  if◌then◌else◌, ◌==◌, ltb,
}
use soa.Rest.{Text, Flow, returned, threw, threw_unknown, terminated}
use soa.Rest.Connections.{is_empty}
use soa.Rest.Contexts.{
  Context, save_state, restore_state, PathSpec, no_path, string_path, regex_path, Found, match_path,
}
use soa.Rest.Routes.{Router, router, Routes, no_routes, route}

-- JSON values are those of another library: the value of a text, `operator []` with a change of what it
-- refers to, and `toStyledString`.
pub record JsonOps (Json : Type 0) : Type 0 where
  pub empty : Json
  pub is_null : Json → Bool
  pub text : Text → Json
  pub member : Text → (Json → Json) → Json → Json
  pub element : ℕ → (Json → Json) → Json → Json
  pub to_styled : Json → Text

-- The order of a set of texts.
abbrev pub text_before : Text → Text → Bool
text_before s [] = false
text_before [] (b ∷ t) = true
text_before (a ∷ s) (b ∷ t) = ltb a b || (a == b && text_before s t)

abbrev pub insert_verb : Text → List Text → List Text
insert_verb v [] = v ∷ []
insert_verb v (w ∷ ws) =
    if same_bytes v w
    then w ∷ ws
    else if text_before v w
    then v ∷ (w ∷ ws)
    else w ∷ insert_verb v ws

abbrev pub insert_verbs : List Text → List Text → List Text
insert_verbs [] ws = ws
insert_verbs (v ∷ vs) ws = insert_verbs vs (insert_verb v ws)

-- `getVerbsStr`
abbrev pub join_verbs : Text → List Text → Text
join_verbs out [] = out
join_verbs out (v ∷ vs) = join_verbs ((if is_empty out then out else out ++ (b',' ∷ [])) ++ v) vs

unfoldable pub verbs_text : List Text → Text
verbs_text vs = join_verbs [] vs

abbrev pub path_desc : PathSpec → Text
path_desc no_path = []
path_desc (string_path p) = p
path_desc (regex_path p desc) = if is_empty desc then p else desc

abbrev pub flow_then : {A B : Type 0} → Flow A → (A → Flow B) → Flow B
flow_then (returned a) next = next a
flow_then (threw what) next = threw what
flow_then threw_unknown next = threw_unknown
flow_then terminated next = terminated

abbrev pub help_key : Text → List Text → Text
help_key path verbs = (if is_empty path then [] else path ++ (b' ' ∷ [])) ++ verbs_text verbs

pub record Options (Json : Type 0) : Type 0 where
  pub verbs : List Text
  pub help : Json

module _ {Json : Type 0} (ops : JsonOps Json) where
  -- `PathSpec::getHelp`
  abbrev pub path_help : PathSpec → Flow (Json → Json)
  path_help no_path = threw (codes "unknown path parameter")
  path_help (string_path p) = returned (λ j. ops.member (codes "path") (λ _. ops.text p) j)
  path_help (regex_path p desc) = returned (λ j.
      ops.member (codes "path")
        (λ v.
          ops.member (codes "desc") (λ _. ops.text desc)
            (ops.member (codes "regex") (λ _. ops.text p) v))
        j)

  -- `RequestFilter::getHelp`, from an index on.
  abbrev pub filter_help : ℕ → List Text → Json → Json
  filter_help i [] j = j
  filter_help i (v ∷ vs) j =
      filter_help (i + 1) vs (ops.member (codes "verbs") (λ a. ops.element i (λ _. ops.text v) a) j)

  -- The help of a route itself.
  abbrev pub route_help : Text → PathSpec → List Text → Json → Flow Json
  route_help path p verbs j =
      flow_then (path_help p) (λ put.
        returned (ops.member (help_key path verbs) (λ sri. filter_help 0 verbs (put sri)) j))

  abbrev pub own_help : Text → Json → Json → Json
  own_help description arg_help v =
      let w = ops.member (codes "description") (λ _. ops.text description) v in
      if ops.is_null arg_help then w else ops.member (codes "arguments") (λ _. arg_help) w

  unfoldable mutual
    unfolding verbs_text

    pub get_help : Router Json → Text → List Text → Json → Flow Json
    get_help (router h rs description terminal arg_help) path verbs j =
        get_help_routes rs path (ops.member (help_key path verbs) (own_help description arg_help) j)

    pub get_help_routes : Routes Json → Text → Json → Flow Json
    get_help_routes no_routes path j = returned j
    get_help_routes (route p verbs r e rs) path j =
        flow_then (route_help (path ++ path_desc p) p verbs j) (λ k.
          flow_then (get_help r (path ++ path_desc p) verbs k) (λ l. get_help_routes rs path l))

  -- What a route whose path ends here adds.
  abbrev pub add_route_help :
      PathSpec → List Text → (Json → Flow Json) → Options Json → Flow (Options Json)
  add_route_help p verbs router_help o = flow_then (route_help [] p verbs o.help) (λ j.
      flow_then (router_help j)
        (λ k. returned (record { verbs = insert_verbs verbs o.verbs; help = k })))

  abbrev pub guarded_options :
      Option Context → Context × Flow (Options Json) → Context × Flow (Options Json)
  guarded_options none r = (r.0, terminated)
  guarded_options (some y) r = (y, r.1)

  abbrev pub options_then :
      {A : Type 0}
      → Context × Flow A
      → (A → Context → Context × Flow (Options Json))
      → Context × Flow (Options Json)
  options_then (x, returned a) next = next a x
  options_then (x, threw what) next = (x, threw what)
  options_then (x, threw_unknown) next = (x, threw_unknown)
  options_then (x, terminated) next = (x, terminated)

  -- What is behind the match of the path.
  abbrev pub route_matched :
      PathSpec
      → List Text
      → (Json → Flow Json)
      → (Options Json → Context → Context × Flow (Options Json))
      → Options Json
      → Bool
      → Context
      → Context × Flow (Options Json)
  route_matched p verbs router_help inner o false y = (y, returned o)
  route_matched p verbs router_help inner o true y =
      options_then
        (y, if is_empty y.remaining then add_route_help p verbs router_help o else returned o) inner

  -- `Route::options`, with what the router of the route does as functions.
  unfoldable pub route_options :
      (Text → Text → Option Found)
      → PathSpec
      → List Text
      → (Json → Flow Json)
      → (Options Json → Context → Context × Flow (Options Json))
      → Options Json
      → Context
      → Context × Flow (Options Json)
  unfolding restore_state
  route_options search_regex p verbs router_help inner o x =
      let r =
        options_then (match_path search_regex p x)
          (λ matched y. route_matched p verbs router_help inner o matched y) in
      guarded_options (restore_state (save_state x) r.0) r

  unfoldable pub options :
      (Text → Text → Option Found)
      → Routes Json
      → Options Json
      → Context
      → Context × Flow (Options Json)
  unfolding route_options get_help
  options search_regex no_routes o x = (x, returned o)
  options search_regex (route p verbs (router h subs description terminal arg_help) e rs) o x =
      options_then
        (route_options search_regex p verbs
          (λ j. get_help (router h subs description terminal arg_help) [] verbs j)
          (λ n y. options search_regex subs n y) o x)
        (λ n y. options search_regex rs n y)
