-- ===== src/Timeouts/Examples.antt =====
-- The theorems about timeout maps at concrete maps, and tests of the operations.
use native.Mathlib.Decide.{ℕ_discrete}
use soa.Prelude.{
  ℕ, ◌+◌, ◌==◌, if◌then◌else◌, Bool-cases, inl, inr, arith, ◌≡◌, refl, none, some, List, [], ◌∷◌,
  All, ok, err,
}
use soa.Timeouts.{
  finite, infinite, null_date, out_of_fuel, no_default_timeout, key_exists, wild_iterator,
  TimeoutMap, new_map, find, put, remove, insert_timeout, erase_timeout,
}
use soa.Timeouts.Ops.{
  index, insert, erase, expire, link, access, update_timeout, relink, update, expire_loop, unlink,
}
use soa.Timeouts.Refinement.{Abstract, Represents, Matches}
use soa.Timeouts.Calls.{
  PlainCall, insert_call, update_call, update_timeout_call, access_call, expire_call, apply, run,
  run_spec, history-Represents,
}
use soa.Timeouts.Histories.{
  Call, plain_call, index_call, visit_call, IsCovered, apply_call, spec_call, run_history,
  spec_history, run_history-Represents, call-Matches,
}
use soa.Timeouts.Callbacks.{Answer, expire_with}
use soa.Timeouts.Expired.{expired, IsForward}
use soa.Timeouts.Visits.{call_all, Comes, expire_with-Comes}
use soa.Timeouts.Index.{index_without_default}

-- Key 1 is put off before the map expires at 15, key 2 is not.
abbrev history : List (PlainCall ℕ ℕ)
history =
    insert_call 1 10 (finite 9)
    ∷ insert_call 2 20 (finite 12)
    ∷ access_call 3 infinite
    ∷ update_timeout_call 1 (finite 30)
    ∷ update_call 1 11
    ∷ expire_call (finite 15)
    ∷ []

abbrev after_history : TimeoutMap ℕ ℕ
after_history = record {
  default_timeout = none;
  nodes =
      (1, record { value = 11; timeout = finite 9; timeout_it = some (finite 30) })
      ∷ (3, record { value = 0; timeout = infinite; timeout_it = some infinite })
      ∷ [];
  timeouts = (finite 30, 1) ∷ (infinite, 3) ∷ [];
  earliest = finite 30;
}

history-run : run ℕ_discrete 0 history (new_map none) ≡ after_history
unfolding run apply new_map insert find put insert_timeout link access update_timeout relink
    erase_timeout update expire expire_loop unlink remove ℕ_discrete
history-run = refl

inserted_twice : apply ℕ_discrete 0 (insert_call 1 5 (finite 2)) after_history ≡ err key_exists
unfolding apply insert find ℕ_discrete
inserted_twice = refl

abbrev nothing : Abstract ℕ ℕ
nothing k = none

index_without_default_example :
    ((index {V = ℕ} ℕ_discrete 0 (finite 7) 4 (new_map none)).0 ≡ err no_default_timeout)
    × (erase ℕ_discrete 4 ((index {V = ℕ} ℕ_discrete 0 (finite 7) 4 (new_map none)).1)
        ≡ err wild_iterator)
unfolding new_map run run_spec
index_without_default_example =
    index_without_default ℕ_discrete 0 (finite 7) 4 (new_map none) nothing
      (history-Represents ℕ_discrete 0 none []) refl refl

-- The callback counts its calls; it doubles the value of key 1 and puts the key off.
abbrev put_off : ℕ → ℕ → ℕ → Answer ℕ ℕ
put_off k v n = record {
  state = n + 1;
  value = v + v;
  expiry = if k == 1 then finite 60 else null_date;
}

put_off-IsForward : (k v n : ℕ) → IsForward ℕ_discrete (finite 30) (put_off k v n)
put_off-IsForward k v n h = elim (Bool-cases (k == 1)) [
  | inl one ↦ rw one refl
  | inr other ↦ cc (rw other at h)
]

-- Keys 4 and 1 have expired when the callback is called; key 1 is put off.
abbrev all_calls : List (Call ℕ ℕ ℕ)
all_calls =
    index_call 4 (finite 7)
    ∷ plain_call (insert_call 1 10 (finite 9))
    ∷ index_call 1 (finite 7)
    ∷ visit_call put_off 0 (finite 30)
    ∷ []

all_calls-IsCovered : All (IsCovered ℕ_discrete 0 (some 5)) all_calls
all_calls-IsCovered = ((tt, tt), ((tt, tt), ((tt, tt), ((tt, put_off-IsForward), tt))))

run_history-Represents_example :
    Represents ℕ_discrete
      (run_history ℕ_discrete 0 all_calls (new_map (some 5)))
      (spec_history ℕ_discrete 0 (some 5) all_calls (new_map (some 5)) nothing)
run_history-Represents_example =
    run_history-Represents ℕ_discrete 0 (some 5) all_calls all_calls-IsCovered

all_calls-left :
    (run_history ℕ_discrete 0 all_calls (new_map (some 5))).timeouts ≡ (finite 60, 1) ∷ []
unfolding run_history new_map index apply insert link expire_with find put remove insert_timeout
    erase_timeout ℕ_discrete
all_calls-left = refl

abbrev visit : Call ℕ ℕ ℕ
visit = visit_call put_off 0 (finite 30)

call-Matches_example :
    let m = run ℕ_discrete 0 history (new_map none) in
    Matches ℕ_discrete (apply_call ℕ_discrete 0 visit m) (
      spec_call ℕ_discrete 0 m.default_timeout m.timeouts visit
        (run_spec ℕ_discrete 0 history nothing))
call-Matches_example =
    call-Matches ℕ_discrete 0 visit (run ℕ_discrete 0 history (new_map none))
      (run_spec ℕ_discrete 0 history nothing) (history-Represents ℕ_discrete 0 none history)
      put_off-IsForward

expire_with-Comes_example :
    Comes ℕ_discrete put_off
      (finite 30)
      (expire_with ℕ_discrete put_off (finite 30) 3 0 (run ℕ_discrete 0 history (new_map none)))
      (call_all ℕ_discrete put_off
        (expired (finite 30) (run ℕ_discrete 0 history (new_map none)).timeouts)
        0
        (run_spec ℕ_discrete 0 history nothing))
unfolding run apply new_map insert find put insert_timeout link access update_timeout relink
    erase_timeout update expire expire_loop unlink remove ℕ_discrete
expire_with-Comes_example =
    expire_with-Comes ℕ_discrete put_off (finite 30) put_off-IsForward 3 0
      (run ℕ_discrete 0 history (new_map none)) (run_spec ℕ_discrete 0 history nothing)
      (history-Represents ℕ_discrete 0 none history) (omega arith)

put_off_once :
    expire_with ℕ_discrete put_off (finite 30) 3 0 after_history
    ≡ ok (
      1,
      record {
        default_timeout = none;
        nodes =
            (1, record { value = 22; timeout = finite 9; timeout_it = some (finite 60) })
            ∷ (3, record { value = 0; timeout = infinite; timeout_it = some infinite })
            ∷ [];
        timeouts = (finite 60, 1) ∷ (infinite, 3) ∷ [];
        earliest = finite 30;
      },
    )
unfolding expire_with find put insert_timeout erase_timeout ℕ_discrete
put_off_once = refl

-- Two entries that are put off to a date that has passed follow each other without an end.
abbrev again_now : ℕ → ℕ → ℕ → Answer ℕ ℕ
again_now k v n = record { state = n + 1; value = v; expiry = finite 5 }

abbrev two_due : List (PlainCall ℕ ℕ)
two_due = insert_call 1 10 (finite 4) ∷ insert_call 2 20 (finite 4) ∷ []

never_done :
    expire_with ℕ_discrete again_now (finite 30) 50 0 (run ℕ_discrete 0 two_due (new_map none))
    ≡ err out_of_fuel
unfolding expire_with run insert find put insert_timeout erase_timeout ℕ_discrete new_map
never_done = refl
