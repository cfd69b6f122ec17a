-- ===== src/Gc/Data.antt =====
-- The packed word that the threads share (gc/gc_lock.h, `Data`) and its epoch arithmetic
-- (gc/gc_lock.cc, `compareEpochs`, `calcVisibleEpoch`, `validate`, `updateData`). Epochs are the bit
-- patterns of int32_t and counts those of int16_t, both with their wrap-around.

pub mod Epochs
pub mod Visible
pub use soa.Prelude.{ok, err, ◌>>=◌, ◌>>◌, check}
use soa.Prelude.{
  Outcome, ℕ, ◌+◌, ◌-◌, ◌*◌, ◌/◌, ◌%◌, ◌^◌, Ordering, Bool, true, false, not, ◌&&◌, u16_mod,
  u32_mod, add32, sub32, ltb, ltb_i32, ◌==◌, if◌then◌else◌,
}

abbrev pub quarter : ℕ
quarter = 2 ^ 30

-- The last two bits, in place: `a & MASK`.
abbrev pub masked : ℕ → ℕ
masked a = a / quarter * quarter

abbrev pub mask : ℕ
mask = 3 * 2 ^ 30

unfoldable pub compare_epochs : ℕ → ℕ → Ordering
compare_epochs a b =
    if a == b
    then Ordering.eq
    else if masked a == masked b
    then (if ltb_i32 a b then Ordering.lt else Ordering.gt)
    else if masked a == 0
    then (if masked b == mask then Ordering.gt else Ordering.lt)
    else if masked b == 0
    then (if masked a == mask then Ordering.lt else Ordering.gt)
    else if ltb (masked a) (masked b)
    then Ordering.lt
    else Ordering.gt

-- `compareEpochs(a, b) >= 0`
unfoldable pub epoch_ge : ℕ → ℕ → Bool
epoch_ge a b = elim (compare_epochs a b) [ Ordering.lt ↦ false | _ ↦ true ]

-- `compareEpochs(a, b) > 0`
unfoldable pub epoch_gt : ℕ → ℕ → Bool
epoch_gt a b = elim (compare_epochs a b) [ Ordering.gt ↦ true | _ ↦ false ]

pub record Data : Type 0 where
  pub epoch : ℕ
  pub in_0 : ℕ
  pub in_1 : ℕ
  pub visible_epoch : ℕ
  pub exclusive : ℕ

unfoldable pub new_data : ℕ → Data
new_data starting_epoch = record {
  epoch = starting_epoch;
  in_0 = 0;
  in_1 = 0;
  visible_epoch = starting_epoch;
  exclusive = 0;
}

-- `in[slot]`, for a slot 0 or 1
unfoldable pub in_slot : Data → ℕ → ℕ
in_slot d slot = if slot == 0 then d.in_0 else d.in_1

unfoldable pub in_current : Data → ℕ
unfolding in_slot
in_current d = in_slot d (d.epoch % 2)

unfoldable pub in_old : Data → ℕ
unfolding in_slot
in_old d = in_slot d (sub32 d.epoch 1 % 2)

unfoldable pub set_in : Data → ℕ → ℕ → Data
set_in d epoch v = if epoch % 2 == 0 then record d { in_0 = v } else record d { in_1 = v }

unfoldable pub add_in : Data → ℕ → ℕ → Data
unfolding in_slot set_in
add_in d epoch v = set_in d epoch ((in_slot d (epoch % 2) + v) % u16_mod)

unfoldable pub same_data : Data → Data → Bool
same_data a b =
    a.epoch == b.epoch
    && a.in_0 == b.in_0
    && a.in_1 == b.in_1
    && a.visible_epoch == b.visible_epoch
    && a.exclusive == b.exclusive

-- The epoch that is visible by the counts alone.
unfoldable pub visible_by_counts : Data → ℕ
unfolding in_current in_old
visible_by_counts d =
    if in_current d == 0 && in_old d == 0
    then d.epoch
    else if in_old d == 0
    then sub32 d.epoch 1
    else sub32 d.epoch 2

pub data Error : Type 0 where
  epoch_went_back visible_went_back not_valid not_in_cs already_in_cs bad_exclusive would_deadlock :
      Error

abbrev pub Result {ℓ} : Type ℓ → Type ℓ
Result A = Outcome Error A

-- The new data, and whether the visible epoch changed.
unfoldable pub calc_visible_epoch : Data → Result (Data × Bool)
unfolding visible_by_counts epoch_ge compare_epochs
calc_visible_epoch d = do
  let v = visible_by_counts d
  check (epoch_ge v d.visible_epoch) visible_went_back
  ok (record d { visible_epoch = v }, not (d.visible_epoch == v))

unfoldable pub validate : Data → Result (Unit {0})
unfolding in_current in_old epoch_ge compare_epochs
validate d = do
  check (epoch_ge d.visible_epoch (sub32 d.epoch 2)) not_valid
  if in_old d == 0 && in_current d == 0
      then check (d.visible_epoch == d.epoch) not_valid
      else if in_old d == 0
      then check (d.visible_epoch == sub32 d.epoch 1) not_valid
      else check (d.visible_epoch == sub32 d.epoch 2) not_valid

-- What one call of `updateData` does: it stores the new data and says whether to wake, or it finds
-- other shared data than expected (which `cmp_xchg` hands back) and stores nothing.
pub data Update : Type 0 where
  stored : Data → Bool → Update
  lost : Update

unfoldable pub update_data : Data → Data → Data → Result Update
unfolding calc_visible_epoch validate same_data
update_data shared old new = do
  check (epoch_ge new.epoch old.epoch) epoch_went_back
  (d, wake) ← calc_visible_epoch new
  validate d
  ok (if same_data shared old then stored d wake else lost)
