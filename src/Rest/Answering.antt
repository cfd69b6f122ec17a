-- ===== src/Rest/Answering.antt =====
-- service/rest_request_router.cc: when a call has done what a choice of a handler says, and that a round
-- of the loop over the routes does.
use soa.Prelude.{
  ◌≡◌, refl, sym, ap, subst, ◌∙◌, Bool, true, false, not, if-elim, if◌then◌else◌, Option, none,
  some, List,
}
use soa.Rest.{Text, RestRequest, Flow, returned, threw, threw_unknown, terminated}
use soa.Rest.Connections.{Connection}
use soa.Rest.Contexts.{
  Context, save_state, PathSpec, no_path, string_path, regex_path, Found, match_path, match_found,
  starts_with,
}
use soa.Rest.Routes.{Run, run, MatchResult, mr_no, mr_yes, mr_error, mr_async, ExtractObject}
use soa.Rest.Routers.{
  root, accepts, with_context, close_guard, and_then, if_matched, process_route, after_route,
}
use soa.Rest.Keeping.{Grows, Grows-refl, Grows-trans, restore_state-Grows, match_path-Grows}
use soa.Rest.Selection.{Choice, or_else, select_at, IsDecided, IsMissing, IsPath}

-- A call has done what the choice says.
abbrev pub Answered : RestRequest → Connection → Context → Run MatchResult → Option Choice → Type 0
Answered q c x r none = r ≡ run c x (returned mr_no)
Answered q c x r (some (h, y)) =
    (r.connection ≡ (root h q y c).connection)
    × (r.flow ≡ (root h q y c).flow)
    × IsDecided r.flow
    × Grows x r.context

module _ (q : RestRequest) (c : Connection) where
  close_guard-Answered :
      (x y : Context) (r : Run MatchResult) (o : Option Choice)
      → Grows x y
      → Answered q c y r o
      → Answered q c x (close_guard (save_state x) r) o
  close_guard-Answered x y r none g same =
      ap (close_guard (save_state x)) same
      ∙ ap (λ o. with_context o (run c y (returned mr_no))) (restore_state-Grows x y g)
  close_guard-Answered x y r (some (h, z)) g (conn, flow, decided, more) =
      subst (λ o. Answered q c x (with_context o r) (some (h, z)))
        (sym (restore_state-Grows x r.context (Grows-trans x y r.context g more)))
        (conn, flow, decided, Grows-refl x)

  only_accepted :
      (b : Bool) (x : Context) (r : Run MatchResult) (o : Option Choice)
      → Answered q c x r o
      → Answered q c x (if not b then run c x (returned mr_no) else r) (if b then o else none)
  only_accepted true x r o h = h
  only_accepted false x r o h = refl

  abbrev IsMatch : Flow Bool → Type 0
  IsMatch (returned b) = Unit
  IsMatch (threw what) = ⊥
  IsMatch threw_unknown = ⊥
  IsMatch terminated = ⊥

  match_found-IsMatch : (f : Option Found) (x : Context) → IsMatch (match_found f x).1
  match_found-IsMatch none x = tt
  match_found-IsMatch (some f) x =
      if-elim (λ (m : Context × Flow Bool). IsMatch m.1) f.prefix_matched _ _ (λ _. tt) (λ _. tt)

  match_path-IsMatch :
      (s : Text → Text → Option Found) (p : PathSpec) (x : Context)
      → IsPath p
      → IsMatch (match_path s p x).1
  unfolding match_path
  match_path-IsMatch s no_path x h = absurd h
  match_path-IsMatch s (string_path p) x h =
      if-elim (λ (m : Context × Flow Bool). IsMatch m.1) (starts_with p x.remaining) _ _ (λ _. tt)
        (λ _. tt)
  match_path-IsMatch s (regex_path p desc) x h = match_found-IsMatch (s p x.remaining) x

  module _ (inner : Context → Connection → Run MatchResult) (pick : Context → Option Choice)
      (unsent : c.response_sent ≡ false)
      (answered : (y : Context) → Answered q c y (inner y c) (pick y)) where
    matched-Answered :
        (e : Option ExtractObject) (x y : Context) (f : Flow Bool)
        → IsMissing e
        → Grows x y
        → IsMatch f
        → Answered q c x
            (close_guard
              (save_state x)
              (and_then (run c y f) (λ matched z d. if_matched e inner q matched z d)))
            (select_at pick (y, f))
    matched-Answered (some e) x y f missing g h = absurd missing
    matched-Answered none x y (returned false) missing g h =
        close_guard-Answered x y (run c y (returned mr_no)) none g refl
    matched-Answered none x y (returned true) missing g h =
        if-elim (λ (r : Run MatchResult). Answered q c x (close_guard (save_state x) r) (pick y))
          c.response_sent _ (inner y c) (λ e. cc)
          (λ _. close_guard-Answered x y (inner y c) (pick y) g (answered y))
    matched-Answered none x y (threw what) missing g h = absurd h
    matched-Answered none x y threw_unknown missing g h = absurd h
    matched-Answered none x y terminated missing g h = absurd h

    pub process_route-Answered :
        (s : Text → Text → Option Found) (p : PathSpec) (verbs : List Text)
        (e : Option ExtractObject) (x : Context)
        → IsPath p
        → IsMissing e
        → Answered q c x
            (process_route s p verbs e inner q x c)
            (if accepts verbs q.verb then select_at pick (match_path s p x) else none)
    unfolding process_route
    process_route-Answered s p verbs e x path missing =
        let m = match_path s p x in
        only_accepted (accepts verbs q.verb) x _ _ (
          matched-Answered e x m.0 m.1 missing (match_path-Grows s p x).0
            (match_path-IsMatch s p x path))

  decided_after :
      (x : Context) (d : Connection) (y : Context) (f : Flow MatchResult)
      (next : Context → Connection → Run MatchResult)
      → IsDecided f
      → after_route (run d y f) next ≡ run d y f
  unfolding after_route
  decided_after x d y (returned mr_no) next h = absurd h
  decided_after x d y (returned mr_yes) next h = refl
  decided_after x d y (returned mr_error) next h = refl
  decided_after x d y (returned mr_async) next h = refl
  decided_after x d y (threw what) next h = absurd h
  decided_after x d y threw_unknown next h = absurd h
  decided_after x d y terminated next h = absurd h

  pub after_route-Answered :
      (x : Context) (r : Run MatchResult) (o rest : Option Choice)
      (next : Context → Connection → Run MatchResult)
      → Answered q c x r o
      → Answered q c x (next x c) rest
      → Answered q c x (after_route r next) (or_else o rest)
  unfolding after_route
  after_route-Answered x r none rest next same h =
      subst (λ w. Answered q c x (after_route w next) rest) (sym same) h
  after_route-Answered x r (some (h, y)) rest next (conn, flow, decided, more) k =
      subst (λ w. Answered q c x w (some (h, y)))
        (sym (decided_after x r.connection r.context r.flow next decided))
        (conn, flow, decided, more)
