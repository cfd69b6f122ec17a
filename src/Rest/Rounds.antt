-- ===== src/Rest/Rounds.antt =====
-- service/rest_request_router.cc: what a route, and a round of the loop over the routes, keep.
use soa.Prelude.{◌≡◌, refl, sym, subst, Bool, true, false, not, if-elim, Option, none, some, List}
use soa.Rest.{Text, RestRequest, Flow, returned, threw, threw_unknown, terminated}
use soa.Rest.Connections.{Connection, Message, send}
use soa.Rest.Contexts.{Context, save_state, PathSpec, Found, match_path}
use soa.Rest.Routes.{Run, run, MatchResult, mr_no, mr_yes, mr_error, mr_async, ExtractObject}
use soa.Rest.Routers.{
  accepts, with_context, close_guard, and_then, extract, unless_answered, if_matched, process_route,
  after_route, after_error,
}
use soa.Rest.Keeping.{
  IsLive, Grows, Grows-refl, Grows-trans, restore_state-Grows, KeptBySend, Fine, Restored,
  match_path-Grows,
}

module _ (P : Connection → Type 0) where
  -- What the handlers and extractors of the user may do.
  abbrev pub IsPolite : {A : Type 0} → (RestRequest → Context → Connection → Run A) → Type 0
  IsPolite f = (q : RestRequest) (x : Context) (c : Connection) → P c → Fine P x (f q x c)

  abbrev pub IsPoliteOption :
      {A : Type 0} → Option (RestRequest → Context → Connection → Run A) → Type 0
  IsPoliteOption none = Unit
  IsPoliteOption (some f) = IsPolite f

module _ (P : Connection → Type 0) (sends : KeptBySend P) where
  pub Restored-Fine : {A : Type 0} (x : Context) (r : Run A) → Restored P x r → Fine P x r
  Restored-Fine x r (same, live, proper) =
      (subst (λ y. Grows x y) (sym same) (Grows-refl x), live, proper)

  close_guard-Restored :
      {A : Type 0} (x : Context) (r : Run A)
      → Fine P x r
      → Restored P x (close_guard (save_state x) r)
  close_guard-Restored x r (grows, live, proper) =
      subst (λ o. Restored P x (with_context o r)) (sym (restore_state-Grows x r.context grows))
        (refl, live, proper)

  and_then-Fine :
      {A : Type 0} (x y : Context) (c : Connection) (f : Flow A)
      (next : A → Context → Connection → Run MatchResult)
      → Fine P x (run c y f)
      → ((a : A) → f ≡ returned a → Fine P x (next a y c))
      → Fine P x (and_then (run c y f) next)
  and_then-Fine x y c (returned a) next h k = k a refl
  and_then-Fine x y c (threw what) next h k = h
  and_then-Fine x y c threw_unknown next h k = h
  and_then-Fine x y c terminated next h k = h

  Fine-trans : {A : Type 0} (x y : Context) (r : Run A) → Grows x y → Fine P y r → Fine P x r
  Fine-trans x y r g (h, live, proper) = (Grows-trans x y r.context g h, live, proper)

  unless_answered-Fine :
      (inner : Context → Connection → Run MatchResult) (x : Context) (c : Connection)
      → P c
      → Fine P x (inner x c)
      → Fine P x (unless_answered inner x c)
  unless_answered-Fine inner x c proper h =
      if-elim (λ r. Fine P x r) c.response_sent _ _ (λ e. (Grows-refl x, tt, proper)) (λ e. h)

  extract-Fine : (e : Option ExtractObject) → IsPoliteOption P e → IsPolite P (extract e)
  extract-Fine none h q x c proper = (Grows-refl x, tt, proper)
  extract-Fine (some f) h q x c proper = h q x c proper

  module _ (s : Text → Text → Option Found) (p : PathSpec) (verbs : List Text)
      (e : Option ExtractObject) (inner : Context → Connection → Run MatchResult) (q : RestRequest)
      (polite : IsPoliteOption P e)
      (fine : (x : Context) (c : Connection) → P c → Fine P x (inner x c)) where
    matched-Fine :
        (matched : Bool) (x : Context) (c : Connection)
        → P c
        → Fine P x (if_matched e inner q matched x c)
    matched-Fine false x c proper = (Grows-refl x, tt, proper)
    matched-Fine true x c proper =
        let got = extract e q x c in
        let h = extract-Fine e polite q x c proper in
        and_then-Fine x got.context got.connection got.flow (λ _ z b. unless_answered inner z b) h
          (λ _ _. Fine-trans x got.context (unless_answered inner got.context got.connection) h.0 (
            unless_answered-Fine inner got.context got.connection h.2
              (fine got.context got.connection h.2)))

    pub process_route-Restored :
        (x : Context) (c : Connection) → P c → Restored P x (process_route s p verbs e inner q x c)
    unfolding process_route
    process_route-Restored x c proper =
        let m = match_path s p x in
        let (grows, live) = match_path-Grows s p x in
        let go =
          λ (matched : Bool) (y : Context) (d : Connection). if_matched e inner q matched y d in
        let after = and_then (run c m.0 m.1) go in
        if-elim (λ (r : Run MatchResult). Restored P x r) (not (accepts verbs q.verb))
          (run c x (returned mr_no)) (close_guard (save_state x) after) (λ h. (refl, tt, proper))
          (λ h. close_guard-Restored x after (
            and_then-Fine x m.0 c m.1 go (grows, live, proper)
              (λ matched _.
                Fine-trans x m.0 (go matched m.0 c) grows (matched-Fine matched m.0 c proper))))

  module _ (x : Context) (next : Context → Connection → Run MatchResult)
      (keep : (d : Connection) → P d → Restored P x (next x d)) where
    after_error-Restored :
        (sent : Connection × Flow Unit)
        → P sent.0 × IsLive sent.1
        → Restored P x (after_error sent x next)
    after_error-Restored (c, returned u) (proper, live) = keep c proper
    after_error-Restored (c, threw what) (proper, live) = (refl, tt, proper)
    after_error-Restored (c, threw_unknown) (proper, live) = (refl, tt, proper)
    after_error-Restored (c, terminated) (proper, live) = absurd live

    sent-Restored :
        (m : Message) (c : Connection) → P c → Restored P x (after_error (send m c) x next)
    sent-Restored m c proper = after_error-Restored (send m c) (sends m c proper)

    after_flow-Restored :
        (c : Connection) (f : Flow MatchResult)
        → IsLive f
        → P c
        → Restored P x (after_route (run c x f) next)
    unfolding after_route
    after_flow-Restored c (returned mr_no) live proper = keep c proper
    after_flow-Restored c (returned mr_yes) live proper = (refl, tt, proper)
    after_flow-Restored c (returned mr_error) live proper = (refl, tt, proper)
    after_flow-Restored c (returned mr_async) live proper = (refl, tt, proper)
    after_flow-Restored c (threw what) live proper = sent-Restored _ c proper
    after_flow-Restored c threw_unknown live proper = sent-Restored _ c proper
    after_flow-Restored c terminated live proper = absurd live

    pub after_route-Restored :
        (r : Run MatchResult) → Restored P x r → Restored P x (after_route r next)
    after_route-Restored r (same, live, proper) =
        subst (λ y. Restored P x (after_route (run r.connection y r.flow) next)) (sym same)
          (after_flow-Restored r.connection r.flow live proper)
