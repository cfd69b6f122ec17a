-- ===== src/Ports/Ranges.antt =====
-- service/port_range_service.cc: the ranges of different names have no port in common.
use soa.Prelude.{
  ℕ, zero, suc, ◌+◌, ◌-◌, ◌%◌, ◌^◌, u32_mod, ltb_i32, ◌≤◌, ◌<◌, ◌≡◌, ◌≢◌, ◌⊎◌, refl, sym, ap, subst,
  if-cases, Outcome, ◌∙◌, Bool, true, false, Bool-cases, inl, inr, Option, none, some, List, [],
  ◌∷◌, ok, err, same_bytes, same_bytes-eq, same_bytes_refl, arith,
}
use soa.Ports.{
  Fault, invalid_range, PortRange, PortService, new_service, find_range, insert_range, get_range,
  make_range, bind_from, bind_port,
}

-- The service after a number of names have been asked for, the last one first.
abbrev pub after_call : Outcome Fault (PortRange × PortService) → PortService → PortService
after_call (ok r) s = r.1
after_call (err e) s = s

unfoldable pub after_names : ℕ → List (List ℕ) → PortService
after_names size [] = new_service size
after_names size (name ∷ names) =
    after_call (get_range name (after_names size names)) (after_names size names)

-- The names of a map have ranges of the size below a port, those of earlier names below those of later
-- ones.
abbrev pub IsStacked : ℕ → ℕ → List (List ℕ × PortRange) → Type 0
IsStacked size top [] = 15000 ≤ top
IsStacked size top ((n, r) ∷ rest) =
    (r.last ≡ r.first + size) × (r.last ≤ top) × IsStacked size r.first rest

bottom : (size top : ℕ) (m : List (List ℕ × PortRange)) → IsStacked size top m → 15000 ≤ top
bottom size top [] h = h
bottom size top ((n, r) ∷ rest) (sized, below, others) =
    let h = bottom size r.first rest others in omega (arith, h, sized, below)

some-inj : (r r' : PortRange) → some r ≡ some r' → r ≡ r'
some-inj r r' e = ap (λ o. elim o [ none ↦ r | some q ↦ q ]) e

-- A range that is found lies between the first port of all and the top.
found-Between :
    (size top : ℕ) (name : List ℕ) (m : List (List ℕ × PortRange)) (r : PortRange)
    → IsStacked size top m
    → find_range name m ≡ some r
    → (r.last ≡ r.first + size) × (r.last ≤ top) × (15000 ≤ r.first)
found-Between size top name [] r h e = cc
found-Between size top name ((n, r') ∷ rest) r (sized, below, others) e =
    elim (if-cases (same_bytes name n) (some r') (find_range name rest) r e) [
      | inl (same, this) ↦
          let first : 15000 ≤ r'.first = bottom size r'.first rest others in
          subst (λ o. (o.last ≡ o.first + size) × (o.last ≤ top) × (15000 ≤ o.first))
            (some-inj r' r this) (sized, below, first)
      | inr (other, later) ↦
          let (sizes, under, over) = found-Between size r'.first name rest r others later in
          (sizes, omega (arith, under, below, sized), over)
    ]

abbrev pub Apart : PortRange → PortRange → Type 0
Apart r r' = (r.last ≤ r'.first) ⊎ (r'.last ≤ r.first)

found-Apart :
    (size top : ℕ) (a b : List ℕ) (m : List (List ℕ × PortRange)) (r r' : PortRange)
    → IsStacked size top m
    → a ≢ b
    → find_range a m ≡ some r
    → find_range b m ≡ some r'
    → Apart r r'
found-Apart size top a b [] r r' h differ e f = cc
found-Apart size top a b ((n, q) ∷ rest) r r' (sized, below, others) differ e f =
    elim (if-cases (same_bytes a n) (some q) (find_range a rest) r e) [
      | inl (here, this) ↦ elim (if-cases (same_bytes b n) (some q) (find_range b rest) r' f) [
        | inl (also, that) ↦ absurd (differ (same_bytes-eq a n here ∙ sym (same_bytes-eq b n also)))
        | inr (other, later) ↦ inr (
            subst (λ o. r'.last ≤ o.first) (some-inj q r this)
              (found-Between size q.first b rest r' others later).1)
      ]
      | inr (other, later) ↦ elim (if-cases (same_bytes b n) (some q) (find_range b rest) r' f) [
        | inl (also, that) ↦ inl (
            subst (λ o. r.last ≤ o.first) (some-inj q r' that)
              (found-Between size q.first a rest r others later).1)
        | inr (not_here, far) ↦ found-Apart size q.first a b rest r r' others differ later far
      ]
    ]

abbrev pub IsValid : ℕ → PortService → Type 0
IsValid size s =
    (s.range_size ≡ size) × (s.current_port < 2 ^ 31) × IsStacked size s.current_port s.range_map

-- The next range of a service, as the constructor gets it.
abbrev pub next_range : PortService → PortRange
next_range s = record { first = s.current_port; last = (s.current_port + s.range_size) % u32_mod }

module _ (size : ℕ) (word : size < 2 ^ 32) where
  -- Where the constructor takes the bounds as ints, neither has wrapped around.
  no_wrap :
      (s : PortService)
      → IsValid size s
      → ltb_i32 s.current_port ((s.current_port + s.range_size) % u32_mod) ≡ true
      → ((s.current_port + s.range_size) % u32_mod ≡ s.current_port + size)
        × (s.current_port + size < 2 ^ 31)
  no_wrap s (same, low, stacked) h = ground (arith, same, low, h, word)

  inserted-IsValid :
      (name : List ℕ) (s : PortService) (o : Option PortRange)
      → IsValid size s
      → ltb_i32 s.current_port ((s.current_port + s.range_size) % u32_mod) ≡ true
      → IsValid size (insert_range s name (next_range s) o).1
  inserted-IsValid name s (some r) h up = h
  inserted-IsValid name s none h up =
      let (whole, low) = no_wrap s h up in
      let (same, below, stacked) = h in
      (same, omega (arith, whole, low), (whole, omega arith, stacked))

  get_range_cases :
      (name : List ℕ) (s : PortService)
      → (get_range name s ≡ err invalid_range)
        ⊎ ((ltb_i32 s.current_port ((s.current_port + s.range_size) % u32_mod) ≡ true)
            × (get_range name s
                ≡ ok (insert_range s name (next_range s) (find_range name s.range_map))))
  unfolding get_range make_range
  get_range_cases name s =
      elim (Bool-cases (ltb_i32 s.current_port ((s.current_port + s.range_size) % u32_mod))) [
        | inl more ↦ inr (more, rw more refl)
        | inr less ↦ inl (rw less refl)
      ]

  after_names-IsValid : (names : List (List ℕ)) → IsValid size (after_names size names)
  unfolding after_names
  after_names-IsValid [] = (refl, omega arith, omega arith)
  after_names-IsValid (name ∷ names) =
      let s = after_names size names in
      let h = after_names-IsValid names in
      elim (get_range_cases name s) [
        | inl e ↦ subst (λ o. IsValid size (after_call o s)) (sym e) h
        | inr (more, e) ↦
            subst (λ o. IsValid size (after_call o s)) (sym e)
              (inserted-IsValid name s (find_range name s.range_map) h more)
      ]

  -- Whatever names have been asked for, of a service whose size is any unsigned number of 32 bits, the
  -- ranges of two different names have no port in common. A call that throws changes nothing.
  pub after_names-Apart :
      (names : List (List ℕ)) (a b : List ℕ) (r r' : PortRange)
      → a ≢ b
      → find_range a (after_names size names).range_map ≡ some r
      → find_range b (after_names size names).range_map ≡ some r'
      → Apart r r'
  after_names-Apart names a b r r' differ e f =
      let s = after_names size names in
      found-Apart size s.current_port a b s.range_map r r' (after_names-IsValid names).2 differ e f

  find-insert :
      (name : List ℕ) (s : PortService) (fresh : PortRange) (o : Option PortRange)
      → find_range name s.range_map ≡ o
      → let p = insert_range s name fresh o in find_range name p.1.range_map ≡ some p.0
  find-insert name s fresh none e = rw (same_bytes_refl name) refl
  find-insert name s fresh (some r) e = e

  find-insert_other :
      (name : List ℕ) (s : PortService) (fresh : PortRange) (o : Option PortRange) (n : List ℕ)
      (r : PortRange)
      → find_range name s.range_map ≡ o
      → find_range n s.range_map ≡ some r
      → find_range n (insert_range s name fresh o).1.range_map ≡ some r
  find-insert_other name s fresh (some r') n r e f = f
  find-insert_other name s fresh none n r e f = elim (Bool-cases (same_bytes n name)) [
    | inl same ↦
        let found : find_range name s.range_map ≡ some r =
          ap (λ m. find_range m s.range_map) (sym (same_bytes-eq n name same)) ∙ f in
        cc
    | inr other ↦ rw other f
  ]

  -- Whatever names have been asked for, getRange throws, or it gives a name a range of the service's size,
  -- which is the one that it gives the name from then on, and a range that another name has got before
  -- stays.
  pub get_range_lem :
      (names : List (List ℕ)) (name other : List ℕ) (r : PortRange)
      → find_range other (after_names size names).range_map ≡ some r
      → (get_range name (after_names size names) ≡ err invalid_range)
        ⊎ ((q : PortRange) × (s : PortService) × (get_range name (after_names size names)
              ≡ ok (q, s))
            × (q.last ≡ q.first + size)
            × (find_range name s.range_map ≡ some q)
            × (find_range other s.range_map ≡ some r))
  get_range_lem names name other r f =
      let s = after_names size names in
      elim (get_range_cases name s) [
        | inl e ↦ inl e
        | inr (more, e) ↦
            let o = find_range name s.range_map in
            let p = insert_range s name (next_range s) o in
            let found = find-insert name s (next_range s) o refl in
            let after = inserted-IsValid name s o (after_names-IsValid names) more in
            inr (
              p.0,
              p.1,
              e,
              (found-Between size p.1.current_port name p.1.range_map p.0 after.2 found).0,
              found,
              find-insert_other name s (next_range s) o other r refl f,
            )
      ]

  -- While there are ports below 2 ^ 31 left, getRange does not throw.
  pub get_range_ok :
      (names : List (List ℕ)) (name : List ℕ)
      → 0 < size
      → (after_names size names).current_port + size < 2 ^ 31
      → (p : PortRange × PortService) × (get_range name (after_names size names) ≡ ok p)
  unfolding get_range make_range
  get_range_ok names name some_ports left =
      let s = after_names size names in
      let (same, low, stacked) = after_names-IsValid names in
      let more : ltb_i32 s.current_port ((s.current_port + s.range_size) % u32_mod) ≡ true =
        ground (arith, same, low, left, some_ports) in
      (insert_range s name (next_range s) (find_range name s.range_map), rw more refl)

at_or_above : (i j : ℕ) → i ≤ j → (i ≡ j) ⊎ (i + 1 ≤ j)
at_or_above i j h = ground (arith, h)

above :
    (operation : ℕ → Bool) (i j : ℕ) → i ≤ j → operation j ≡ true → operation i ≡ false → i + 1 ≤ j
above operation i j low free taken = elim (at_or_above i j low) [
  | inl same ↦ let e : operation i ≡ true = ap operation same ∙ free in cc
  | inr less ↦ less
]

bind_from_lem :
    (operation : ℕ → Bool) (left i j : ℕ)
    → i ≤ j
    → j < i + left
    → operation j ≡ true
    → (k : ℕ) × (bind_from operation left i ≡ some k) × (i ≤ k) × (k ≤ j) × (operation k ≡ true)
unfolding bind_from
bind_from_lem operation zero i j low high free = absurd (omega (arith, low, high))
bind_from_lem operation (suc left) i j low high free = elim (Bool-cases (operation i)) [
  | inl here ↦ (i, rw here refl, omega arith, low, here)
  | inr taken ↦
      let later : i + 1 ≤ j = above operation i j low free taken in
      let (k, bound, least, most, good) =
        bind_from_lem operation left (i + 1) j later (omega (arith, high)) free in
      (k, rw taken bound, omega (arith, least), most, good)
]

-- Where a port of a range can be bound, bindPort binds one, no port outside the range and none behind
-- that port.
pub bind_port_lem :
    (operation : ℕ → Bool) (r : PortRange) (j : ℕ)
    → r.first ≤ j
    → j < r.last
    → operation j ≡ true
    → (k : ℕ) × (bind_port operation r ≡ some k) × (r.first ≤ k) × (k ≤ j) × (operation k ≡ true)
unfolding bind_port
bind_port_lem operation r j low high free =
    bind_from_lem operation (r.last - r.first) r.first j low (omega (arith, low, high)) free
