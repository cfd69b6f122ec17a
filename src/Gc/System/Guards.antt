-- ===== src/Gc/System/Guards.antt =====
-- Which epochs' queues wait for a thread in a critical section, and that deferring work picks one.
use soa.Prelude.{
  refl, Option-cases, [], ◌∷◌, ◌++◌, ℕ, ◌%◌, ◌<◌, ◌≡◌, ◌≢◌, ◌⊎◌, inl, inr, true, false, none, some,
  List, arith, u32_mod, add32, sub32, get_elem?, ◌==◌, if◌then◌else◌,
}
use soa.Gc.Data.{Data, in_current, in_old, in_slot, epoch_gt, compare_epochs}
use soa.Gc.Data.Epochs.{epoch_gt-near}
use soa.Gc.Data.Visible.{IsSound}
use soa.Gc.Deferred.{Work, sum_zero, minus_one, defer_first, oldest_live, defer_queues}
use soa.Gc.Data.{ok}
use soa.Gc.System.{System, defer_call, defer_lock, do_defer_call, do_defer_lock, remove_at, run}
use soa.Gc.System.Invariant.{Inv, IsSnapshot}
use soa.Gc.System.Steps.{self, inside-pos}
use soa.Gc.Threads.{Pc, inside}

-- The epochs whose queue waits for a thread that entered epoch `e`.
abbrev pub Guards : ℕ → ℕ → Type 0
Guards k e = (k ≡ e) ⊎ (k ≡ add32 e 1)

-- What a thread inside shows: it is counted in the current or in the old epoch.
abbrev pub Inside : Data → ℕ → Type 0
Inside d e =
    (e < u32_mod)
    × (((d.epoch ≡ e) × (0 < in_current d)) ⊎ ((d.epoch ≡ add32 e 1) × (0 < in_old d)))

slot-Inside :
    (d : Data) (slot e : ℕ)
    → e < u32_mod
    → slot ≡ e % 2
    → (d.epoch ≡ e) ⊎ (d.epoch ≡ add32 e 1)
    → 0 < in_slot d slot
    → Inside d e
unfolding in_current in_old
slot-Inside d slot e h s (inl x) pos = (h, inl (x, ground arith))
slot-Inside d slot e h s (inr x) pos = (h, inr (x, ground arith))

pub inside-Inside :
    (d : Data) (ts : List Pc) (i slot e : ℕ)
    → Inv d ts
    → get_elem? ts i ≡ some (inside slot e)
    → Inside d e
inside-Inside d ts i slot e inv at =
    let me = self d ts inv i (inside slot e) at in
    slot-Inside d slot e me.0 me.1 me.2 (inside-pos d ts inv i slot e at).1

-- The visible epoch stays below what guards a thread inside.
pub guarded_not_visible :
    (d : Data) (e k : ℕ) → IsSound d → Inside d e → Guards k e → epoch_gt k d.visible_epoch ≡ true
guarded_not_visible d e k s m g =
    let near : (k ≡ add32 d.visible_epoch 1)
        ⊎ ((k ≡ add32 d.visible_epoch 2) ⊎ (k ≡ add32 d.visible_epoch 3)) =
      ground arith in
    elim near [
      | inl x ↦ rw x (epoch_gt-near d.visible_epoch 1 s.visible_range (omega arith) (omega arith))
      | inr (inl x) ↦
          rw x (epoch_gt-near d.visible_epoch 2 s.visible_range (omega arith) (omega arith))
      | inr (inr x) ↦
          rw x (epoch_gt-near d.visible_epoch 3 s.visible_range (omega arith) (omega arith))
    ]

-- Work that is deferred while a thread is inside is not run inline, and waits at a guarding epoch.
pub defer_first-Guards :
    (d : Data) (e : ℕ) → IsSnapshot d → Inside d e → (k : ℕ) × (defer_first d ≡ some k) × Guards k e
unfolding defer_first in_current in_old
defer_first-Guards d e s m =
    (if in_current d == 0 then sub32 d.epoch 1 else d.epoch, ground arith, ground arith)

oldest_live-Inside :
    (d : Data) (e : ℕ)
    → IsSnapshot d
    → Inside d e
    → (oldest_live d ≡ e) ⊎ (oldest_live d ≡ sub32 e 1)
unfolding oldest_live in_current in_old
oldest_live-Inside d e s m = ground arith

not_newer :
    (e k o : ℕ) → e < u32_mod → Guards k e → (o ≡ e) ⊎ (o ≡ sub32 e 1) → epoch_gt o k ≡ false
unfolding epoch_gt compare_epochs
not_newer e k o h g m = ground arith

some-Inside :
    (d : Data) (e : ℕ) → IsSnapshot d → Inside d e → sum_zero (in_current d) (in_old d) ≡ false
unfolding in_current in_old
some-Inside d e s m = ground arith

-- Nor is it run under the spin lock, unless an epoch there reads as the mark for none.
pub defer_queues-Guards :
    (d : Data) (e k : ℕ)
    → IsSnapshot d
    → Inside d e
    → Guards k e
    → e ≢ 0
    → e ≢ minus_one
    → defer_queues d k ≡ true
unfolding defer_queues
defer_queues-Guards d e k s m g h0 h1 =
    let o = oldest_live-Inside d e s m in
    let live : (oldest_live d == minus_one) ≡ false = ground (arith, o) in
    rw (live, not_newer e k (oldest_live d) m.0 g o, some-Inside d e s m)

zero_defers :
    (d : Data)
    → IsSnapshot d
    → d.epoch ≡ 0
    → 0 < in_old d
    → (newest : ℕ) × (defer_first d ≡ some newest)
unfolding defer_first in_current in_old
zero_defers d s z m = elim (Option-cases (defer_first d)) [
  | inl e ↦ ground arith
  | inr found ↦ found
]

zero_queues :
    (d : Data) (newest : ℕ)
    → IsSnapshot d
    → d.epoch ≡ 0
    → 0 < in_old d
    → defer_queues d newest ≡ false
unfolding defer_queues in_current in_old
zero_queues d newest s z m = ground arith

-- Where the current epoch is 0 and a thread is still inside from the epoch before, a call of doDefer that
-- nothing interrupts runs its work itself instead of queueing it: the half before the spin lock finds
-- that the work has to wait, and the half under it takes that epoch for the mark of no live epoch.
pub epoch_zero_runs :
    (s : System) (w : Work)
    → IsSnapshot s.shared
    → s.shared.epoch ≡ 0
    → 0 < in_old s.shared
    → (defer_first s.shared ≢ none)
      × (run s (defer_call w ∷ defer_lock 0 ∷ []) ≡ ok (record s { ran = s.ran ++ w ∷ [] }))
unfolding run soa.Gc.System.step do_defer_call do_defer_lock remove_at
epoch_zero_runs s w snapshot z m =
    let (newest, e) = zero_defers s.shared snapshot z m in
    let f = zero_queues s.shared newest snapshot z m in
    ((λ q. cc), rw (e, run, do_defer_call) (rw (f, do_defer_lock) refl))
