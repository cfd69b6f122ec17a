-- ===== src/Pending/PairExamples.antt =====
-- completePrefix at a list with pairs of numbers as keys.
use native.Mathlib.Decide.{ℕ_discrete}
use soa.Prelude.{ℕ, ◌≡◌, ◌⊎◌, refl, false, none, some, [], ◌∷◌, ltb, arith}
use soa.Timeouts.{Node, infinite, new_map}
use soa.Pending.{PendingList, new_list}
use soa.Pending.Completion.{
  IsOrder, IsFirst, NonePasses, matches, complete_prefix, is_prefix_pair, pair_less,
}
use soa.Pending.Prefixes.{complete_prefix-IsFirst}
use soa.Pending.Pairs.{pair_less-IsOrder, is_prefix_pair-IsConvex}

ltb-IsOrder : IsOrder ltb
ltb-IsOrder = record {
  irrefl = λ a. ground arith;
  trans = λ a b c h k. ground (arith, h, k);
  equal = λ a b h k. ground (arith, h, k);
}

abbrev entry : ℕ × ℕ → (ℕ × ℕ) × Node ℕ
entry k = (k, record { value = 7; timeout = infinite; timeout_it = some infinite })

-- Auctions, each with its spots.
abbrev auctions : PendingList (ℕ × ℕ) ℕ Unit
auctions = record (new_list tt false) {
  timeouts = record (new_map none) {
    nodes = entry (4, 2) ∷ entry (1, 9) ∷ entry (4, 6) ∷ [];
    timeouts = (infinite, (4, 2)) ∷ (infinite, (1, 9)) ∷ (infinite, (4, 6)) ∷ [];
  };
}

complete_prefix-IsFirst_example :
    IsFirst
      (pair_less ltb ltb)
      (matches (pair_less ltb ltb) (4, 0) (is_prefix_pair ℕ_discrete))
      (complete_prefix (pair_less ltb ltb) (0, 0) (is_prefix_pair ℕ_discrete) (4, 0) auctions)
      auctions.timeouts.nodes
    ⊎ ((complete_prefix (pair_less ltb ltb) (0, 0) (is_prefix_pair ℕ_discrete) (4, 0) auctions
          ≡ (0, 0))
        × NonePasses
            (matches (pair_less ltb ltb) (4, 0) (is_prefix_pair ℕ_discrete))
            auctions.timeouts.nodes)
complete_prefix-IsFirst_example =
    complete_prefix-IsFirst (pair_less ltb ltb) (4, 0) (is_prefix_pair ℕ_discrete)
      (pair_less-IsOrder ltb ltb ltb-IsOrder ltb-IsOrder) (0, 0) auctions
      (is_prefix_pair-IsConvex ltb ltb ltb-IsOrder ℕ_discrete (4, 0))

first_spot :
    complete_prefix (pair_less ltb ltb) (0, 0) (is_prefix_pair ℕ_discrete) (4, 0) auctions ≡ (4, 2)
unfolding complete_prefix soa.Pending.Completion.first_passing ℕ_discrete
first_spot = refl

-- A pair that begins with the partial key, but is before it, is not found.
spot_before :
    complete_prefix (pair_less ltb ltb) (0, 0) (is_prefix_pair ℕ_discrete) (1, 10) auctions ≡ (0, 0)
unfolding complete_prefix soa.Pending.Completion.first_passing ℕ_discrete
spot_before = refl
