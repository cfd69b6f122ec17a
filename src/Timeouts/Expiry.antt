-- ===== src/Timeouts/Expiry.antt =====
-- `expire` of service/timeout_map.h leaves the entries whose deadlines have not passed.
use mathlib.Core.Logic.{if_pos, if_neg}
use mathlib.Core.Path.{ap₂}
use soa.Prelude.{
  ◌≡◌, refl, sym, ap, subst, ◌∙◌, inl, inr, Bool, false, Bool-cases, Option, none, some, List, [],
  ◌∷◌, ok, err, ◌>>=◌,
}
use soa.Timeouts.{
  Date, date_le, wild_iterator, Node, TimeoutMap, find, due, remove, first_date, erase_timeout,
}
use soa.Timeouts.Maps.{Above, Sorted, Unique, Above-due, erase_timeout_absent}
use soa.Timeouts.Ops.{Result, unlink, expire_loop, expire}
use soa.Timeouts.Refinement.{Linked-cases, value_until, alive, Abstract, Represents, Matches, write}
use soa.Timeouts.Moves.{unlink-Matches}

pub drop_flag :
    {K V : Type 0} (dec : Discrete K) (flag : Bool) (x : Result (TimeoutMap K V))
    (y : Result (Abstract K V))
    → Matches dec x y
    → Matches dec
        (◌>>=◌ {A = TimeoutMap K V} {B = TimeoutMap K V × Bool} x (λ r. ok (r, flag)) >>= λ r.
          ok r.0)
        y
drop_flag dec flag (ok x) y h = h
drop_flag dec flag (err e) y h = h

module _ {K : Type 0} (dec : Discrete K) where
  pub first_timeouts :
      (d : Date) (k : K) (rest : List (Date × K))
      → due dec k rest ≡ none
      → erase_timeout dec k ((d, k) ∷ rest) ≡ rest
  unfolding erase_timeout
  first_timeouts d k rest h =
      if_pos (dec k k) refl (erase_timeout dec k rest) ((d, k) ∷ erase_timeout dec k rest)
      ∙ erase_timeout_absent dec k rest h

module _ {K V : Type 0} (dec : Discrete K) where
  pub Represents-cong :
      (m : TimeoutMap K V) (a b : Abstract K V)
      → Represents dec m a
      → ((k : K) → a k ≡ b k)
      → Represents dec m b
  Represents-cong m a b r h = record { is_linked = r.is_linked; same = λ k. r.same k ∙ h k }

  pub Matches-cong :
      (x : Result (TimeoutMap K V)) (a b : Abstract K V)
      → Matches dec x (ok a)
      → ((k : K) → a k ≡ b k)
      → Matches dec x (ok b)
  Matches-cong (ok m) a b r h = Represents-cong m a b r h
  Matches-cong (err e) a b r h = absurd r

  pub write_absent : (k : K) (a : Abstract K V) (j : K) → a k ≡ none → write dec k none a j ≡ a j
  write_absent k a j h = elim (dec k j) [
    | yes same ↦ if_pos (dec k j) same none (a j) ∙ sym h ∙ ap a same
    | no other ↦ if_neg (dec k j) other none (a j)
  ]

  -- Writing over an entry that has expired makes no difference to what is alive.
  write_expired :
      (now : Date) (k : K) (a : Abstract K V) (j : K)
      → alive now (a k) ≡ none
      → alive now (write dec k none a j) ≡ alive now (a j)
  write_expired now k a j h = elim (dec k j) [
    | yes same ↦
        ap (alive now) (if_pos (dec k j) same none (a j)) ∙ sym h ∙ ap (λ i. alive now (a i)) same
    | no other ↦ ap (alive now) (if_neg (dec k j) other none (a j))
  ]

  value-alive :
      (now : Date) (o : Option (Node V)) (p : Option Date)
      → ((d : Date) → p ≡ some d → date_le d now ≡ false)
      → value_until o p ≡ alive now (value_until o p)
  value-alive now none p h = refl
  value-alive now (some n) none h = refl
  value-alive now (some n) (some d) h = rw (h d refl) refl

  -- Nothing has expired before the first deadline has passed.
  all_alive :
      (now d : Date) (k : K) (rest : List (Date × K)) (m : TimeoutMap K V) (a : Abstract K V)
      → Represents dec m a
      → m.timeouts ≡ (d, k) ∷ rest
      → Above d rest
      → date_le d now ≡ false
      → (j : K) → a j ≡ alive now (a j)
  unfolding due
  all_alive now d k rest m a r h above later j =
      sym (r.same j)
      ∙ value-alive now (find dec j m.nodes) (due dec j m.timeouts) not_passed
      ∙ ap (alive now) (r.same j)
    where
      at_head : (e : Date) → due dec j ((d, k) ∷ rest) ≡ some e → date_le e now ≡ false
      at_head e q = elim (dec k j) [
        | yes same ↦ cc (if_pos (dec k j) same (some d) (due dec j rest))
        | no other ↦
            Above-due dec now d j rest e later above
              (sym (if_neg (dec k j) other (some d) (due dec j rest)) ∙ q)
      ]

      not_passed : (e : Date) → due dec j m.timeouts ≡ some e → date_le e now ≡ false
      not_passed e q = at_head e (sym (ap (due dec j) h) ∙ q)

  -- The node of the first deadline, and the map without it.
  pub first_node :
      (d : Date) (k : K) (rest : List (Date × K)) (m : TimeoutMap K V) (a : Abstract K V)
      → Represents dec m a
      → m.timeouts ≡ (d, k) ∷ rest
      → (n : Node V) × (find dec k m.nodes ≡ some n) × (a k ≡ some (n.value, d))
  unfolding due
  first_node d k rest m a r h =
      elim (Linked-cases (find dec k m.nodes) (due dec k m.timeouts) (r.is_linked.linked k)) [
        | inl (e, f) ↦ cc (at_k)
        | inr (n, d', e, f, _) ↦ (n, e, sym (r.same k) ∙ ap₂ value_until e at_k)
      ]
    where
      at_k : due dec k m.timeouts ≡ some d
      at_k = ap (due dec k) h ∙ if_pos (dec k k) refl (some d) (due dec k rest)

  pub unlink_cases :
      (k : K) (n : Node V) (m : TimeoutMap K V) (a : Abstract K V)
      → Matches dec (unlink dec k n m) (ok a)
      → (r : TimeoutMap K V) × (unlink dec k n m ≡ ok r)
        × Represents dec r a
        × (r.timeouts ≡ erase_timeout dec k m.timeouts)
  unfolding unlink
  unlink_cases k n m a h = at n.timeout_it h
    where
      ts : List (Date × K)
      ts = erase_timeout dec k m.timeouts

      out : Option Date → Result (TimeoutMap K V)
      out it = elim it [
        | none ↦ err wild_iterator
        | some old ↦
            ok (record m { nodes = remove dec k m.nodes; timeouts = ts; earliest = first_date ts })
      ]

      at :
          (it : Option Date)
          → Matches dec (out it) (ok a)
          → (r : TimeoutMap K V) × (out it ≡ ok r) × Represents dec r a × (r.timeouts ≡ ts)
      at none q = absurd q
      at (some d) q = (
        record m { nodes = remove dec k m.nodes; timeouts = ts; earliest = first_date ts },
        refl,
        q,
        refl,
      )

  expire_loop-Matches :
      (now : Date) (pending : List (Date × K)) (m : TimeoutMap K V) (a : Abstract K V)
      → Represents dec m a
      → m.timeouts ≡ pending
      → Matches dec (expire_loop dec now pending m) (ok (λ k. alive now (a k)))
  unfolding expire_loop due
  expire_loop-Matches now [] m a r h =
      Represents-cong m a (λ k. alive now (a k)) r
        (λ k.
          sym (r.same k)
          ∙ value-alive now (find dec k m.nodes) (due dec k m.timeouts)
              (λ d e. cc (ap (due dec k) h))
          ∙ ap (alive now) (r.same k))
  expire_loop-Matches now ((d, k) ∷ rest) m a r h = elim (Bool-cases (date_le d now)) [
    | inr later ↦
        rw (later, expire_loop)
          (Represents-cong m a (λ k. alive now (a k)) r
            (all_alive now d k rest m a r h ordered.0 later))
    | inl passed ↦
        let (n, e, f) = first_node d k rest m a r h in
        let (m', g, r', t) =
          unlink_cases k n m (write dec k none a) (unlink-Matches dec k n m a r e) in
        let dead : alive now (a k) ≡ none = rw (f) (rw passed refl) in
        rw (passed, e, g, expire_loop)
          (Matches-cong (expire_loop dec now rest m') (λ j. alive now (write dec k none a j))
            (λ j. alive now (a j))
            (expire_loop-Matches now rest m' (write dec k none a) r'
              (t ∙ ap (erase_timeout dec k) h ∙ first_timeouts dec d k rest one.0))
            (λ j. write_expired now k a j dead))
  ]
    where
      ordered : Sorted ((d, k) ∷ rest)
      ordered = subst Sorted h r.is_linked.sorted

      one : Unique dec ((d, k) ∷ rest)
      one = subst (Unique dec) h r.is_linked.unique

  -- `expire` never meets an iterator that does not point to an entry, and it leaves a map that stands
  -- for exactly the entries whose deadlines are after the date, with their values and deadlines.
  pub expire-Matches :
      (now : Date) (m : TimeoutMap K V) (a : Abstract K V)
      → Represents dec m a
      → Matches dec (expire dec now m) (ok (λ k. alive now (a k)))
  unfolding expire
  expire-Matches now m a r = expire_loop-Matches now m.timeouts m a r refl
