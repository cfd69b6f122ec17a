-- ===== src/Pending/Examples.antt =====
-- The theorems about pending lists at concrete lists, over a store that is a log of what was put and deleted.
use mathlib.Core.Logic.{ite, if_pos, if_neg}
use native.Mathlib.Decide.{ℕ_discrete}
use soa.Prelude.{
  ℕ, Bool-cases, inl, inr, ◌+◌, ◌≡◌, refl, sym, ◌∙◌, true, false, Option, none, some, List, [], ◌∷◌,
  if◌then◌else◌, ◌==◌, arith,
}
use soa.Timeouts.{finite, infinite, null_date, Date, TimeoutMap, out_of_fuel}
use soa.Timeouts.Ops.{insert}
use soa.Timeouts.Refinement.{view}
use soa.Timeouts.Callbacks.{Answer}
use soa.Pending.{Text, Persistence, PendingList, new_list, init_from_store}
use soa.Pending.Agreement.{text_eq, lookup, Distinct, IsFaithful}
use soa.Pending.Calls.{
  PendingCall, insert_entry, update_entry, pop_entry, expire_entries, restart, run_calls,
  IsConsistent, IsForwardCall,
}
use soa.Pending.Histories.{history-IsConsistent}
use soa.Pending.Restart.{accept_all, with_deadline, init_from_store-restores}
use soa.Pending.Unreadable.{unreadable, init_from_store-deletes}

abbrev Log : Type 0
Log = List (Text × Option Text)

unfoldable without : Text → List (Text × Text) → List (Text × Text)
unfolding text_eq
without t [] = []
without t ((u, x) ∷ es) = ite (text_eq t u) (without t es) ((u, x) ∷ without t es)

unfoldable log_entries : Log → List (Text × Text)
unfolding without
log_entries [] = []
log_entries ((t, none) ∷ l) = without t (log_entries l)
log_entries ((t, some x) ∷ l) = (t, x) ∷ without t (log_entries l)

lookup-without :
    (t u : Text) (es : List (Text × Text))
    → lookup u (without t es) ≡ ite (text_eq t u) none (lookup u es)
unfolding lookup without
lookup-without t u [] = ground arith
lookup-without t u ((w, x) ∷ es) = ground (arith, lookup-without t u es)

without-Distinct : (t : Text) (es : List (Text × Text)) → Distinct es → Distinct (without t es)
unfolding without
without-Distinct t [] d = tt
without-Distinct t ((u, x) ∷ es) d = elim (text_eq t u) [
  | yes same ↦
      rw (if_pos (text_eq t u) same (without t es) ((u, x) ∷ without t es))
        (without-Distinct t es d.1)
  | no other ↦ rw (if_neg (text_eq t u) other (without t es) ((u, x) ∷ without t es)) (
    lookup-without t u es ∙ if_neg (text_eq t u) other none (lookup u es) ∙ d.0,
    without-Distinct t es d.1,
  )
]

log_entries-Distinct : (l : Log) → Distinct (log_entries l)
unfolding log_entries
log_entries-Distinct [] = tt
log_entries-Distinct ((t, none) ∷ l) = without-Distinct t (log_entries l) (log_entries-Distinct l)
log_entries-Distinct ((t, some x) ∷ l) = (
  lookup-without t t (log_entries l) ∙ if_pos (text_eq t t) refl none (lookup t (log_entries l)),
  without-Distinct t (log_entries l) (log_entries-Distinct l),
)

-- The text of a number is one character.
abbrev read_one : Text → Option ℕ
read_one (c ∷ []) = some c
read_one _ = none

abbrev ps : Persistence ℕ ℕ Log
ps = record {
  stringify_key = λ k. k ∷ [];
  stringify_value = λ v. v ∷ [];
  unstringify_key = read_one;
  unstringify_value = read_one;
  put = λ t x l. (t, some x) ∷ l;
  delete = λ t l. (t, none) ∷ l;
  entries = log_entries;
}

put_lem :
    (t u x : Text) (l : Log)
    → lookup u (log_entries ((t, some x) ∷ l))
      ≡ ite (text_eq t u) (some x) (lookup u (log_entries l))
unfolding lookup log_entries
put_lem t u x l = elim (text_eq t u) [
  | yes same ↦
      rw (if_pos (text_eq t u) same (some x) (lookup u (without t (log_entries l))))
        (sym (if_pos (text_eq t u) same (some x) (lookup u (log_entries l))))
  | no other ↦
      if_neg (text_eq t u) other (some x) (lookup u (without t (log_entries l)))
      ∙ lookup-without t u (log_entries l)
      ∙ if_neg (text_eq t u) other none (lookup u (log_entries l))
      ∙ sym (if_neg (text_eq t u) other (some x) (lookup u (log_entries l)))
]

ps-IsFaithful : IsFaithful ps
unfolding log_entries
ps-IsFaithful = record {
  key-again = λ k. refl;
  value-again = λ v. refl;
  lookup-put = put_lem;
  lookup-delete = λ t u l. lookup-without t u (log_entries l);
  distinct = log_entries-Distinct;
}

-- Key 1 is put off by the callback, which counts its calls, and key 2 is dropped.
abbrev put_off_one : ℕ → ℕ → ℕ → Answer ℕ ℕ
put_off_one k v n = record {
  state = n + 1;
  value = v + 1;
  expiry = if k == 1 then finite 40 else null_date;
}

put_off_one-IsForward : IsForwardCall {V = ℕ} ℕ_discrete (expire_entries put_off_one (finite 20))
put_off_one-IsForward k v u h = elim (Bool-cases (k == 1)) [
  | inl one ↦ rw one refl
  | inr other ↦ cc (rw other at h)
]

abbrev calls : List (PendingCall ℕ ℕ ℕ)
calls =
    insert_entry 1 10 (finite 9)
    ∷ insert_entry 2 20 (finite 12)
    ∷ insert_entry 3 30 (finite 30)
    ∷ insert_entry 3 31 (finite 31)
    ∷ update_entry 3 33
    ∷ expire_entries put_off_one (finite 20)
    ∷ insert_entry 4 40 infinite
    ∷ restart accept_all (finite 40)
    ∷ pop_entry 4
    ∷ []

abbrev after_calls : PendingList ℕ ℕ Log × ℕ
after_calls = run_calls ℕ_discrete ps 0 calls (new_list [] true, 0)

after_calls-entries : log_entries after_calls.0.store ≡ (1 ∷ [], 11 ∷ []) ∷ (3 ∷ [], 33 ∷ []) ∷ []
unfolding log_entries run_calls soa.Timeouts.Ops.erase insert soa.Timeouts.Ops.update
    soa.Timeouts.new_map soa.Timeouts.Ops.clear
after_calls-entries = refl

history-IsConsistent_example : IsConsistent ℕ_discrete ps after_calls.0
unfolding log_entries lookup
history-IsConsistent_example =
    history-IsConsistent ℕ_discrete ps ps-IsFaithful 0 calls [] 0 (λ t. refl)
      (tt, (tt, (tt, (tt, (tt, (put_off_one-IsForward, (tt, (λ k v d. refl, (tt, tt)))))))))

-- A list that has an entry of its own, which the store lacks.
abbrev restarted : PendingList ℕ ℕ Log
restarted =
    record (run_calls {U = ℕ} ℕ_discrete ps 0 (insert_entry 7 70 infinite ∷ [])
      (new_list [] false, 0)).0 { store = after_calls.0.store }

init_from_store-restores_example :
    let r = init_from_store ℕ_discrete ps accept_all (finite 50) restarted in
    ((k : ℕ)
      → view ℕ_discrete r.timeouts k
        ≡ with_deadline (finite 50) (view ℕ_discrete after_calls.0.timeouts k))
    × (r.store ≡ after_calls.0.store)
    × IsConsistent ℕ_discrete ps r
init_from_store-restores_example =
    init_from_store-restores ℕ_discrete ps (finite 50) ps-IsFaithful after_calls.0 restarted
      history-IsConsistent_example refl

-- The second entry has a key that is no number, the third is refused.
abbrev damaged : PendingList ℕ ℕ Log
damaged =
    new_list ((1 ∷ [], some (10 ∷ [])) ∷ ([], some (20 ∷ [])) ∷ (3 ∷ [], some (30 ∷ [])) ∷ []) true

abbrev refuse_three : ℕ → ℕ → Date → Option (ℕ × ℕ × Date)
refuse_three k v d = if k == 3 then none else some (k, v, d)

init_from_store-deletes_example :
    lookup [] (log_entries (init_from_store ℕ_discrete ps refuse_three infinite damaged).store) ≡ (
      if unreadable ℕ_discrete ps [] (lookup [] (log_entries damaged.store))
      then none
      else lookup [] (log_entries damaged.store))
init_from_store-deletes_example =
    init_from_store-deletes ℕ_discrete ps refuse_three infinite ps-IsFaithful damaged []

-- The entry that was refused is in the store, but not in the map.
refused_stays :
    let r = init_from_store ℕ_discrete ps refuse_three infinite damaged in
    (lookup (3 ∷ []) (log_entries r.store) ≡ some (30 ∷ []))
    × (view ℕ_discrete r.timeouts 3 ≡ none)
    × (lookup [] (log_entries r.store) ≡ none)
unfolding init_from_store lookup log_entries soa.Timeouts.find insert soa.Timeouts.Ops.clear
refused_stays = (refl, refl, refl)
