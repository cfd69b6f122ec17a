-- ===== src/Timeouts/Refinement.antt =====
-- A timeout map stands for a function from keys to values with their deadlines, and each operation
-- does what it should to that function.
use mathlib.Core.Logic.{ite}
use soa.Prelude.{◌≡◌, refl, true, inl, inr, ◌⊎◌, Option, none, some, ok, err, if◌then◌else◌}
use soa.Timeouts.{Date, date_le, Node, TimeoutMap, first_date, find, due}
use soa.Timeouts.Maps.{Sorted, Unique}
use soa.Timeouts.Ops.{Result}

-- A node and its entry among the deadlines: both or neither, and the iterator points to the entry.
abbrev pub Linked : {V : Type 0} → Option (Node V) → Option Date → Type 0
Linked none none = Unit
Linked (some n) (some d) = n.timeout_it ≡ some d
Linked _ _ = ⊥

abbrev pub value_until : {V : Type 0} → Option (Node V) → Option Date → Option (V × Date)
value_until (some n) (some d) = some (n.value, d)
value_until _ _ = none

-- The function that a map stands for, and the functions that the operations give.
abbrev pub Abstract : Type 0 → Type 0 → Type 0
Abstract K V = K → Option (V × Date)

abbrev pub alive : {V : Type 0} → Date → Option (V × Date) → Option (V × Date)
alive now none = none
alive now (some (v, d)) = if date_le d now then none else some (v, d)

module _ {K V : Type 0} (dec : Discrete K) where
  abbrev pub view : TimeoutMap K V → Abstract K V
  view m k = value_until (find dec k m.nodes) (due dec k m.timeouts)

  pub record IsLinked (m : TimeoutMap K V) : Type 0 where
    pub linked : (k : K) → Linked (find dec k m.nodes) (due dec k m.timeouts)
    pub sorted : Sorted m.timeouts
    pub unique : Unique dec m.timeouts
    pub early : date_le m.earliest (first_date m.timeouts) ≡ true

  pub record Represents (m : TimeoutMap K V) (a : Abstract K V) : Type 0 where
    pub is_linked : IsLinked m
    pub same : (k : K) → view m k ≡ a k

  abbrev pub Matches : Result (TimeoutMap K V) → Result (Abstract K V) → Type 0
  Matches (ok m) (ok a) = Represents m a
  Matches (err e) (err f) = e ≡ f
  Matches _ _ = ⊥

  abbrev pub write : K → Option (V × Date) → Abstract K V → Abstract K V
  write k x a j = ite (dec k j) x (a j)

pub Linked-cases :
    {V : Type 0} (o : Option (Node V)) (p : Option Date)
    → Linked o p
    → ((o ≡ none) × (p ≡ none))
      ⊎ ((n : Node V) × (d : Date) × (o ≡ some n) × (p ≡ some d) × (n.timeout_it ≡ some d))
Linked-cases none none h = inl (refl, refl)
Linked-cases none (some d) h = absurd h
Linked-cases (some n) none h = absurd h
Linked-cases (some n) (some d) h = inr (n, d, refl, refl, h)
