-- ===== src/Timeouts/Expired.antt =====
-- service/timeout_map.h: the entries that have expired, while `expire` renews them one after another.
use mathlib.Core.Logic.{if_pos, if_neg}
use soa.Prelude.{
  suc, ◌<◌, length, arith, ◌≡◌, ◌⊎◌, inl, inr, refl, sym, ap, subst, ◌∙◌, true, false, Bool-cases,
  if-elim, Option, none, some, List, [], ◌∷◌, if◌then◌else◌,
}
use soa.Timeouts.{Date, is_null, date_lt, date_le, due, insert_timeout, erase_timeout}
use soa.Timeouts.Maps.{date_le_trans, date_le_of_lt, Unique, due-insert_timeout}
use soa.Timeouts.Expiry.{first_timeouts}
use soa.Timeouts.Callbacks.{Answer, first_key, next_key}
use soa.Timeouts.Renewal.{renewed_timeouts}

-- The entries whose deadlines are not after the date, in their order.
abbrev pub expired : {K : Type 0} → Date → List (Date × K) → List (Date × K)
expired now [] = []
expired now ((d, k) ∷ ts) = if date_le d now then (d, k) ∷ expired now ts else []

after_now : (now d e : Date) → date_le d now ≡ false → date_le d e ≡ true → date_le e now ≡ false
after_now now d e h k = elim (Bool-cases (date_le e now)) [
  | inl early ↦ cc (date_le_trans d e now k early)
  | inr late ↦ late
]

module _ {K : Type 0} (now : Date) where
  expired-insert_timeout :
      (d : Date) (k : K) (ts : List (Date × K))
      → date_le d now ≡ false
      → expired now (insert_timeout d k ts) ≡ expired now ts
  unfolding insert_timeout
  expired-insert_timeout d k [] h = rw h refl
  expired-insert_timeout d k ((e, j) ∷ ts) h = elim (Bool-cases (date_lt d e)) [
    | inl before ↦
        let late = after_now now d e h (date_le_of_lt d e before) in rw (before, h, late) refl
    | inr behind ↦
        rw behind
          (ap (λ l. if date_le e now then (e, j) ∷ l else []) (expired-insert_timeout d k ts h))
  ]

  -- An entry that has expired stays first where one that has not is inserted.
  first-insert_timeout :
      (d e : Date) (k j : K) (ts : List (Date × K))
      → date_le d now ≡ false
      → date_le e now ≡ true
      → first_key (insert_timeout d k ((e, j) ∷ ts)) ≡ some j
  unfolding insert_timeout
  first-insert_timeout d e k j ts h early = elim (Bool-cases (date_lt d e)) [
    | inl before ↦ cc (after_now now d e h (date_le_of_lt d e before))
    | inr behind ↦ rw behind refl
  ]

module _ {K : Type 0} (dec : Discrete K) (now : Date) where
  -- The iterator is at an entry that has not expired, or at the end.
  abbrev pub Stops : Option K → List (Date × K) → Type 0
  Stops none ts = Unit
  Stops (some j) ts = (e : Date) × (due dec j ts ≡ some e) × (date_le e now ≡ false)

  -- The iterator is at the first entry, or there is nothing more to do.
  abbrev pub Placed : Option K → List (Date × K) → Type 0
  Placed it ts = (it ≡ first_key ts) ⊎ ((expired now ts ≡ []) × Stops it ts)

  pub next_key-first :
      (d : Date) (k : K) (ts : List (Date × K)) → next_key dec k ((d, k) ∷ ts) ≡ first_key ts
  unfolding next_key
  next_key-first d k ts = if_pos (dec k k) refl (first_key ts) (next_key dec k ts)

  -- Where an answer is no date, or one that has not passed.
  abbrev pub IsForward : {V S : Type 0} → Answer V S → Type 0
  IsForward r = (is_null r.expiry ≡ false) → (date_le r.expiry now ≡ false)

  inserted-Placed :
      (d : Date) (k : K) (ts : List (Date × K))
      → due dec k ts ≡ none
      → date_le d now ≡ false
      → Placed (first_key ts) (insert_timeout d k ts)
  unfolding due insert_timeout
  inserted-Placed d k [] h late = inr (rw late refl, tt)
  inserted-Placed d k ((e, j) ∷ ts) h late = elim (Bool-cases (date_le e now)) [
    | inl early ↦ inl (sym (first-insert_timeout now d e k j ts late early))
    | inr behind ↦
        let other : ¬ (k ≡ j) = λ same. cc (if_pos (dec j k) (sym same) (some e) (due dec k ts)) in
        inr (
          expired-insert_timeout now d k ((e, j) ∷ ts) late ∙ rw behind refl,
          (
            e,
            due-insert_timeout dec d k j ((e, j) ∷ ts) h
                ∙ if_neg (dec k j) other (some d) (due dec j ((e, j) ∷ ts))
                ∙ if_pos (dec j j) refl (some e) (due dec j ts),
            behind,
          ),
        )
  ]

  abbrev pub After : List (Date × K) → List (Date × K) → Type 0
  After ts l = (expired now l ≡ expired now ts) × Placed (first_key ts) l

  pub renewed_timeouts-After :
      {V S : Type 0} (d : Date) (k : K) (ts : List (Date × K)) (r : Answer V S)
      → Unique dec ((d, k) ∷ ts)
      → IsForward r
      → After ts (renewed_timeouts dec k r ((d, k) ∷ ts))
  renewed_timeouts-After d k ts r unique forward =
      let gone = first_timeouts dec d k ts unique.0 in
      if-elim (λ (l : List (Date × K)). After ts l) (is_null r.expiry)
        (erase_timeout dec k ((d, k) ∷ ts))
        (insert_timeout r.expiry k (erase_timeout dec k ((d, k) ∷ ts)))
        (λ _. subst (λ l. After ts l) (sym gone) (refl, inl refl))
        (λ e.
          let late = forward e in
          subst (λ l. After ts (insert_timeout r.expiry k l)) (sym gone)
            (
              expired-insert_timeout now r.expiry k ts late,
              inserted-Placed r.expiry k ts unique.0 late,
            ))

pub expired-length :
    {K : Type 0} (now : Date) (ts : List (Date × K)) → length (expired now ts) < suc (length ts)
expired-length now [] = omega arith
expired-length now ((d, k) ∷ ts) = elim (Bool-cases (date_le d now)) [
  | inl early ↦ let ih = expired-length now ts in rw early (omega (arith, ih))
  | inr late ↦ rw late (omega arith)
]
