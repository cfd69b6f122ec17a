-- ===== src/Timeouts.antt =====
-- service/timeout_map.h: a map whose entries carry a deadline. A date is a number of ticks since the
-- epoch, or the positive infinity of a double; dates before the epoch and NaN do not occur.
pub mod Maps
pub mod Ops
pub mod Refinement
pub mod Moves
pub mod Expiry
pub mod Calls
pub mod Defaults
pub mod Histories
pub mod Index
pub mod Callbacks
pub mod Renewal
pub mod Expired
pub mod Visits
mod Examples
use mathlib.Core.Logic.{ite}
use soa.Prelude.{
  ℕ, ◌+◌, ◌≡◌, Bool, true, false, not, Option, none, some, List, [], ◌∷◌, Outcome, ok, err, ◌>>=◌,
  ltb, leb, ◌==◌, length, if◌then◌else◌,
}

pub data Date : Type 0 where
  finite : ℕ → Date
  infinite : Date

-- `Date()`
abbrev pub null_date : Date
null_date = finite 0

abbrev pub date_lt : Date → Date → Bool
date_lt (finite a) (finite b) = ltb a b
date_lt (finite a) infinite = true
date_lt infinite _ = false

abbrev pub date_le : Date → Date → Bool
date_le (finite a) (finite b) = leb a b
date_le infinite (finite b) = false
date_le _ infinite = true

abbrev pub is_null : Date → Bool
is_null (finite a) = a == 0
is_null infinite = false

abbrev pub plus_seconds : Date → ℕ → Date
plus_seconds (finite a) n = finite (a + n)
plus_seconds infinite n = infinite

pub data Fault : Type 0 where
  no_default_timeout key_exists no_such_key : Fault
  -- an iterator is used that was never set
  wild_iterator : Fault
  out_of_fuel : Fault

-- `timeout_it` is the iterator into `timeouts`: the date of the entry for the node's own key.
pub record Node (V : Type 0) : Type 0 where
  pub value : V
  pub timeout : Date
  pub timeout_it : Option Date

-- `timeouts` is a multimap by date to iterators into `nodes`, which are kept as keys. A node has one
-- entry there at most. `nodes` is a map, of whose order nothing here depends.
pub record TimeoutMap (K V : Type 0) : Type 0 where
  pub default_timeout : Option ℕ
  pub nodes : List (K × Node V)
  pub timeouts : List (Date × K)
  pub earliest : Date

-- A new map; no default timeout stands for one that is not a normal positive number.
unfoldable pub new_map : {K V : Type 0} → Option ℕ → TimeoutMap K V
new_map t = record { default_timeout = t; nodes = []; timeouts = []; earliest = infinite }

-- `timeouts.insert`: behind the entries of the same date.
module _ {K : Type 0} where
  unfoldable pub insert_timeout : Date → K → List (Date × K) → List (Date × K)
  insert_timeout d k [] = (d, k) ∷ []
  insert_timeout d k ((e, j) ∷ ts) =
      if date_lt d e then (d, k) ∷ (e, j) ∷ ts else (e, j) ∷ insert_timeout d k ts

  -- `timeouts.empty() ? infinity : timeouts.begin()->first`
  abbrev pub first_date : List (Date × K) → Date
  first_date [] = infinite
  first_date ((d, k) ∷ ts) = d

abbrev pub earlier : Date → Date → Date
earlier a b = if date_lt a b then a else b

module _ {K V : Type 0} (dec : Discrete K) where
  unfoldable pub find : K → List (K × Node V) → Option (Node V)
  find k [] = none
  find k ((j, n) ∷ ns) = ite (dec j k) (some n) (find k ns)

  -- Write the node of a key, in place or at the end.
  unfoldable pub put : K → Node V → List (K × Node V) → List (K × Node V)
  put k n [] = (k, n) ∷ []
  put k n ((j, m) ∷ ns) = ite (dec j k) ((k, n) ∷ ns) ((j, m) ∷ put k n ns)

  unfoldable pub remove : K → List (K × Node V) → List (K × Node V)
  remove k [] = []
  remove k ((j, m) ∷ ns) = ite (dec j k) (remove k ns) ((j, m) ∷ remove k ns)

module _ {K : Type 0} (dec : Discrete K) where
  -- `timeouts.erase` of the entry of a node.
  unfoldable pub erase_timeout : K → List (Date × K) → List (Date × K)
  erase_timeout k [] = []
  erase_timeout k ((d, j) ∷ ts) = ite (dec j k) (erase_timeout k ts) ((d, j) ∷ erase_timeout k ts)

  -- The deadline of a key.
  unfoldable pub due : K → List (Date × K) → Option Date
  due k [] = none
  due k ((d, j) ∷ ts) = ite (dec j k) (some d) (due k ts)
