-- ===== src/Rest/Contexts.antt =====
-- service/rest_request_router.h, service/rest_request_router.cc: `RestRequestParsingContext`, with the
-- guard that restores it, and `matchPath`.
use soa.Prelude.{
  ℕ, zero, suc, ◌-◌, Bool, true, false, ◌&&◌, ◌||◌, Option, none, some, List, [], ◌∷◌, ◌++◌, codes,
  if◌then◌else◌, length, take, drop, leb, ◌==◌, get_elem?,
}
use soa.Rest.{Text, RestRequest, Flow, returned, threw}

-- An object by its address, or 0, and the number of its type, or 0.
pub record ObjectEntry : Type 0 where
  pub obj : ℕ
  pub type_info : ℕ

pub record Context : Type 0 where
  pub resources : List Text
  pub objects : List ObjectEntry
  pub remaining : Text

abbrev pub new_context : RestRequest → Context
new_context q = record { resources = []; objects = []; remaining = q.resource }

abbrev pub add_object : ObjectEntry → Context → Context
add_object o x = record x { objects = x.objects ++ (o ∷ []) }

-- An index: `back n` is -1 - n.
pub data Index : Type 0 where
  front : ℕ → Index
  back : ℕ → Index

abbrev pub valid_object : Option ObjectEntry → Flow ObjectEntry
valid_object none = threw (codes "Attempt to extract invalid object number")
valid_object (some o) =
    if o.obj == 0 || o.type_info == 0 then threw (codes "invalid object") else returned o

-- Only -1 is taken from the back.
unfoldable pub get_object : Index → Context → Flow ObjectEntry
get_object (front i) x = valid_object (get_elem? x.objects i)
get_object (back zero) x =
    if length x.objects == 0
    then valid_object none
    else valid_object (get_elem? x.objects (length x.objects - 1))
get_object (back (suc n)) x = valid_object none

pub record State : Type 0 where
  pub saved_remaining : Text
  pub resources_length : ℕ
  pub objects_length : ℕ

abbrev pub save_state : Context → State
save_state x = record {
  saved_remaining = x.remaining;
  resources_length = length x.resources;
  objects_length = length x.objects;
}

-- Nothing where an assertion fails.
unfoldable pub restore_state : State → Context → Option Context
restore_state s x =
    if leb s.resources_length (length x.resources) && leb s.objects_length (length x.objects)
    then some record {
      resources = take s.resources_length x.resources;
      objects = take s.objects_length x.objects;
      remaining = s.saved_remaining;
    }
    else none

pub data PathSpec : Type 0 where
  no_path : PathSpec
  string_path : Text → PathSpec
  regex_path : Text → Text → PathSpec

-- What a search for a regular expression finds: whether there is anything before it, the whole match,
-- and its groups.
pub record Found : Type 0 where
  pub prefix_matched : Bool
  pub whole : Text
  pub groups : List Text

abbrev pub starts_with : Text → Text → Bool
starts_with [] text = true
starts_with (c ∷ cs) [] = false
starts_with (c ∷ cs) (d ∷ ds) = c == d && starts_with cs ds

-- The context with what has matched taken off.
abbrev pub consume : List Text → ℕ → Context → Context
consume texts n x = record x { resources = x.resources ++ texts; remaining = drop n x.remaining }

abbrev pub match_found : Option Found → Context → Context × Flow Bool
match_found none x = (x, returned false)
match_found (some f) x =
    if f.prefix_matched
    then (x, returned false)
    else (consume (f.whole ∷ f.groups) (length f.whole) x, returned true)

-- `regex_search` is a parameter.
unfoldable pub match_path : (Text → Text → Option Found) → PathSpec → Context → Context × Flow Bool
match_path search_regex no_path x = (x, threw (codes "unknown rest request type"))
match_path search_regex (string_path p) x =
    if starts_with p x.remaining
    then (consume (p ∷ []) (length p) x, returned true)
    else (x, returned false)
match_path search_regex (regex_path p desc) x = match_found (search_regex p x.remaining) x
