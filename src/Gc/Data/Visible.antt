-- ===== src/Gc/Data/Visible.antt =====
-- The visible epoch lags behind the epoch by at most two. On such data `calcVisibleEpoch`,
-- `validate` and `updateData` never fail.
use soa.Prelude.{ℕ, ◌<◌, ◌≤◌, ◌≡◌, ◌⊎◌, true, not, arith, u32_mod, sub32, ◌==◌, if◌then◌else◌}
use soa.Gc.Data.{
  Data, ok, stored, lost, in_current, in_old, visible_by_counts, calc_visible_epoch, validate,
  update_data, same_data, epoch_ge, compare_epochs,
}

abbrev pub lag : Data → ℕ
lag d = sub32 d.epoch d.visible_epoch

pub record IsSound (d : Data) : Type 0 where
  pub epoch_range : d.epoch < u32_mod
  pub visible_range : d.visible_epoch < u32_mod
  pub lag_bound : lag d ≤ 2
  pub current_in : (in_current d ≡ 0) ⊎ (1 ≤ lag d)
  pub old_in : (in_old d ≡ 0) ⊎ (lag d ≡ 2)

-- Data that is about to be stored: a new epoch may have begun before an old lag was made up.
pub record IsProposal (d : Data) : Type 0 where
  pub epoch_range : d.epoch < u32_mod
  pub visible_range : d.visible_epoch < u32_mod
  pub lag_bound : lag d ≤ 3
  pub current_in : (in_current d ≡ 0) ⊎ (1 ≤ lag d)
  pub old_in : (in_old d ≡ 0) ⊎ (2 ≤ lag d)

pub IsSound-IsProposal : (d : Data) → IsSound d → IsProposal d
IsSound-IsProposal d s = ground arith

-- The data with the visible epoch that its counts call for.
abbrev pub settle : Data → Data
settle d = record d { visible_epoch = visible_by_counts d }

visible_not_back : (d : Data) → IsProposal d → epoch_ge (visible_by_counts d) d.visible_epoch ≡ true
unfolding visible_by_counts epoch_ge compare_epochs
visible_not_back d s = ground arith

calc_visible_epoch-IsProposal :
    (d : Data)
    → IsProposal d
    → calc_visible_epoch d ≡ ok (settle d, not (d.visible_epoch == visible_by_counts d))
unfolding calc_visible_epoch
calc_visible_epoch-IsProposal d s = rw (visible_not_back d s)

validate-settle : (d : Data) → d.epoch < u32_mod → validate (settle d) ≡ ok tt
unfolding validate visible_by_counts
validate-settle d h = ground arith

pub settle-IsSound : (d : Data) → IsProposal d → IsSound (settle d)
unfolding visible_by_counts
settle-IsSound d s = ground arith

-- `updateData` of a proposal does not fail: it stores the settled data, or it lost the race.
pub update_data-IsProposal :
    (shared old new : Data)
    → IsProposal new
    → epoch_ge new.epoch old.epoch ≡ true
    → update_data shared old new
      ≡ ok (
          if same_data shared old
          then stored (settle new) (not (new.visible_epoch == visible_by_counts new))
          else lost)
unfolding update_data
update_data-IsProposal shared old new s h =
    rw (h, calc_visible_epoch-IsProposal new s, validate-settle new s.epoch_range)

pub eq-of-same_data : (a b : Data) → same_data a b ≡ true → a ≡ b
unfolding same_data
eq-of-same_data a b h = ground arith
