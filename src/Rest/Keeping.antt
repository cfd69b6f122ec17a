-- ===== src/Rest/Keeping.antt =====
-- service/rest_request_router.cc: what handlers and routers keep. Contexts only grow until a guard
-- restores them, and a connection has at most one response.
use mathlib.Core.List.{append_assoc, append-nil}
use soa.Prelude.{
  ℕ, ◌+◌, ◌≤◌, ◌≡◌, refl, sym, ap, ◌∙◌, Bool, true, false, if-elim, Option, none, some, List, [],
  ◌∷◌, ◌++◌, length, take, leb, length-append, arith,
}
use soa.Rest.{Text, Flow, returned, threw, threw_unknown, terminated}
use soa.Rest.Connections.{
  Connection, Message, response, json_response, header, chunk, payload, last, send,
}
use soa.Rest.Contexts.{
  Context, ObjectEntry, save_state, restore_state, PathSpec, no_path, string_path, regex_path,
  Found, match_path, match_found, starts_with,
}
use soa.Rest.Routes.{Run}

abbrev pub IsLive : {A : Type 0} → Flow A → Type 0
IsLive (returned a) = Unit
IsLive (threw what) = Unit
IsLive threw_unknown = Unit
IsLive terminated = ⊥

-- The second context has what the first one has, and perhaps more behind it.
abbrev pub Grows : Context → Context → Type 0
Grows x y =
    (r : List Text) × (o : List ObjectEntry) × (y.resources ≡ x.resources ++ r)
    × (y.objects ≡ x.objects ++ o)

pub Grows-refl : (x : Context) → Grows x x
Grows-refl x = ([], [], sym (append-nil x.resources), sym (append-nil x.objects))

pub Grows-trans : (x y z : Context) → Grows x y → Grows y z → Grows x z
Grows-trans x y z (r, o, hr, ho) (s, p, ks, kp) = (
  r ++ s,
  o ++ p,
  ks ∙ ap (λ l. l ++ s) hr ∙ append_assoc x.resources r s,
  kp ∙ ap (λ l. l ++ p) ho ∙ append_assoc x.objects o p,
)

module _ {ℓ} {A : Type ℓ} where
  take-append : (xs ys : List A) → take (length xs) (xs ++ ys) ≡ xs
  take-append [] ys = refl
  take-append (x ∷ xs) ys = ap (λ l. x ∷ l) (take-append xs ys)

  leb-append : (xs ys : List A) → leb (length xs) (length (xs ++ ys)) ≡ true
  leb-append xs ys = let e = length-append xs ys in ground arith

pub restore_state-Grows : (x y : Context) → Grows x y → restore_state (save_state x) y ≡ some x
unfolding restore_state
restore_state-Grows x y (r, o, hr, ho) =
    rw
      (
        hr,
        ho,
        leb-append x.resources r,
        leb-append x.objects o,
        take-append x.resources r,
        take-append x.objects o,
      )
      refl

-- Whether a message begins a response: a whole one, or the header of one that is sent in parts.
abbrev pub begins : Message → ℕ
begins (response code body content_type headers) = 1
begins (json_response code body) = 1
begins (header code content_type headers) = 1
begins (chunk text next) = 0
begins (payload text) = 0
begins (last next) = 0

abbrev pub answers : List Message → ℕ
answers [] = 0
answers (m ∷ ms) = begins m + answers ms

-- No more than one response is begun, and none before the flag is set.
abbrev pub IsProper : Connection → Type 0
IsProper c = (answers c.messages ≤ 1) × (c.response_sent ≡ false → answers c.messages ≡ 0)

answers-append : (ms ns : List Message) → answers (ms ++ ns) ≡ answers ms + answers ns
answers-append [] ns = omega arith
answers-append (m ∷ ms) ns = omega (arith, answers-append ms ns)

begins_le : (m : Message) → begins m ≤ 1
begins_le (response code body content_type headers) = omega arith
begins_le (json_response code body) = omega arith
begins_le (header code content_type headers) = omega arith
begins_le (chunk text next) = omega arith
begins_le (payload text) = omega arith
begins_le (last next) = omega arith

answers-send_le : (m : Message) (ms : List Message) → answers ms ≡ 0 → answers (ms ++ (m ∷ [])) ≤ 1
answers-send_le m ms h = omega (arith, answers-append ms (m ∷ []), begins_le m, h)

pub send-IsProper :
    (m : Message) (c : Connection) → IsProper c → IsProper (send m c).0 × IsLive (send m c).1
unfolding send
send-IsProper m c (few, unsent) =
    if-elim (λ (r : Connection × Flow Unit). IsProper r.0 × IsLive r.1) c.response_sent _ _
      (λ e. ((few, unsent), tt)) (λ e. ((answers-send_le m c.messages (unsent e), λ h. cc), tt))

-- A condition on connections that the calls that send whole responses keep.
abbrev pub KeptBySend : (Connection → Type 0) → Type 0
KeptBySend P = (m : Message) (c : Connection) → P c → P (send m c).0 × IsLive (send m c).1

pub send-IsLive : KeptBySend (λ c. Unit)
unfolding send
send-IsLive m c h =
    if-elim (λ (r : Connection × Flow Unit). Unit × IsLive r.1) c.response_sent _ _ (λ e. (tt, tt))
      (λ e. (tt, tt))

module _ (P : Connection → Type 0) where
  -- What a handler may do.
  abbrev pub Fine : {A : Type 0} → Context → Run A → Type 0
  Fine x r = Grows x r.context × IsLive r.flow × P r.connection

  -- What a guarded call does.
  abbrev pub Restored : {A : Type 0} → Context → Run A → Type 0
  Restored x r = (r.context ≡ x) × IsLive r.flow × P r.connection

match_found-Grows :
    (f : Option Found) (x : Context) → Grows x (match_found f x).0 × IsLive (match_found f x).1
match_found-Grows none x = (Grows-refl x, tt)
match_found-Grows (some f) x =
    if-elim (λ (m : Context × Flow Bool). Grows x m.0 × IsLive m.1) f.prefix_matched _ _
      (λ e. (Grows-refl x, tt))
      (λ e. ((f.whole ∷ f.groups, [], refl, sym (append-nil x.objects)), tt))

pub match_path-Grows :
    (s : Text → Text → Option Found) (p : PathSpec) (x : Context)
    → Grows x (match_path s p x).0 × IsLive (match_path s p x).1
unfolding match_path
match_path-Grows s no_path x = (Grows-refl x, tt)
match_path-Grows s (string_path p) x =
    if-elim (λ (m : Context × Flow Bool). Grows x m.0 × IsLive m.1) (starts_with p x.remaining) _ _
      (λ e. ((p ∷ [], [], refl, sym (append-nil x.objects)), tt)) (λ e. (Grows-refl x, tt))
match_path-Grows s (regex_path p desc) x = match_found-Grows (s p x.remaining) x
