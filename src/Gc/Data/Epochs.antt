-- ===== src/Gc/Data/Epochs.antt =====
-- The order of epochs is circular: it is right as long as the two are at most a quarter turn apart.
use soa.Prelude.{ℕ, ◌<◌, ◌≤◌, ◌≡◌, Ordering, true, arith, u32_mod, add32}
use soa.Gc.Data.{compare_epochs, quarter, epoch_ge, epoch_gt}

abbrev pub flip : Ordering → Ordering
flip Ordering.lt = Ordering.gt
flip Ordering.eq = Ordering.eq
flip Ordering.gt = Ordering.lt

-- Comparing two epochs the other way round gives the opposite answer.
pub compare_epochs-flip :
    (a b : ℕ) → a < u32_mod → b < u32_mod → compare_epochs b a ≡ flip (compare_epochs a b)
unfolding compare_epochs
compare_epochs-flip a b ha hb = ground arith

-- An epoch that is ahead of another by at most a quarter turn, past the wrap-around too, compares as
-- the greater one.
pub compare_epochs-add32 :
    (a k : ℕ) → a < u32_mod → 0 < k → k ≤ quarter → compare_epochs (add32 a k) a ≡ Ordering.gt
unfolding compare_epochs
compare_epochs-add32 a k h pos near = ground arith

pub compare_epochs_refl : (a : ℕ) → compare_epochs a a ≡ Ordering.eq
unfolding compare_epochs
compare_epochs_refl a = ground arith

-- The comparisons that the lock makes are of epochs at most three apart.
pub epoch_ge-near : (a k : ℕ) → a < u32_mod → k ≤ 3 → epoch_ge (add32 a k) a ≡ true
unfolding epoch_ge compare_epochs
epoch_ge-near a k h near = ground arith

pub epoch_gt-near : (a k : ℕ) → a < u32_mod → 0 < k → k ≤ 3 → epoch_gt (add32 a k) a ≡ true
unfolding epoch_gt compare_epochs
epoch_gt-near a k h pos near = ground arith

pub epoch_ge_refl : (a : ℕ) → epoch_ge a a ≡ true
unfolding epoch_ge compare_epochs
epoch_ge_refl a = ground arith
