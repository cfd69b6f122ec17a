-- ===== src/Splitting/Ends.antt =====
-- logger/log_message_splitter.h: the last field of a message that ends in the delimiter of that field.
use soa.Prelude.{
  ℕ, zero, suc, ◌+◌, ◌-◌, ◌≤◌, ◌≡◌, refl, sym, ap, subst, ◌∙◌, Bool-cases, inl, inr, if-elim,
  Option, none, some, List, [], ◌∷◌, ◌++◌, ◌==◌, length, take_all, take, drop, drop-drop, drop-nil,
  get_elem?, leb, ◌||◌, arith, length-append,
}
use soa.Splitting.{skip, fill, split_message, field}
use soa.Splitting.Pieces.{pieces, later, pieces-skip, append-skip}
use soa.Splitting.Fields.{
  slices, slices-first, offsets_after, fill-suc, get_elem?-slices, length-slices, get_elem?_beyond,
}

drop_past : (q : List ℕ) (d : ℕ) (cs : List ℕ) → drop (suc (length q)) (q ++ (d ∷ cs)) ≡ cs
drop_past [] d cs = refl
drop_past (x ∷ q) d cs = drop_past q d cs

drop_cut :
    (start : ℕ) (whole q : List ℕ) (d : ℕ) (cs : List ℕ)
    → drop start whole ≡ q ++ (d ∷ cs)
    → drop (start + length q + 1) whole ≡ cs
drop_cut start whole q d cs e =
    ap (λ n. drop n whole) (omega arith)
    ∙ sym (drop-drop (suc (length q)) start whole)
    ∙ ap (drop (suc (length q))) e
    ∙ drop_past q d cs

some-inj : {A : Type 0} (a b : A) → some a ≡ some b → a ≡ b
some-inj {A = A} a b e = ap (λ (o : Option A). elim o [ none ↦ a | some x ↦ x ]) e

first-eq : (c d : ℕ) (cs ds : List ℕ) → c ∷ cs ≡ d ∷ ds → c ≡ d
first-eq c d cs ds e = cc

skip-delimiter :
    (split : ℕ) (text : List ℕ) (d : ℕ) (cs : List ℕ) → (skip split text).1 ≡ d ∷ cs → d ≡ split
skip-delimiter split [] d cs e = cc
skip-delimiter split (c ∷ rest) d cs e = elim (Bool-cases (c == split)) [
  | inl b ↦ let same : c ≡ split = ground arith in sym (first-eq c d rest cs (rw b at e)) ∙ same
  | inr b ↦ skip-delimiter split rest d cs (rw b at e)
]

one_empty_piece : (split : ℕ) (text : List ℕ) → pieces split text ≡ [] ∷ [] → text ≡ []
one_empty_piece split [] e = refl
one_empty_piece split (c ∷ cs) e = elim (Bool-cases (c == split)) [
  | inl b ↦ cc (pieces-skip split cs, (rw b at e))
  | inr b ↦ cc (rw (b, pieces-skip split cs) at e)
]

module _ (split : ℕ) (whole : List ℕ) where
  abbrev DelimiterStays : ℕ → ℕ → List ℕ → Type 0
  DelimiterStays room start text =
      (p : List ℕ)
      → drop start whole ≡ text
      → drop (suc room) (pieces split text) ≡ [] ∷ []
      → get_elem? (pieces split text) room ≡ some p
      → get_elem? (slices whole (fill split (suc room) start text)) room ≡ some (p ++ (split ∷ []))

  -- The same for a text that is cut at its first delimiter.
  abbrev CutStays : ℕ → ℕ → List ℕ → List ℕ → Type 0
  CutStays room start q t =
      (p : List ℕ)
      → drop start whole ≡ q ++ t
      → drop (suc room) (q ∷ later split t) ≡ [] ∷ []
      → get_elem? (q ∷ later split t) room ≡ some p
      → get_elem? (slices whole (start ∷ offsets_after split room (start + length q + 1) t)) room
        ≡ some (p ++ (split ∷ []))

  last-cut :
      (room start : ℕ) (q t : List ℕ)
      → ((d : ℕ) (cs : List ℕ) → t ≡ d ∷ cs → d ≡ split)
      → ((r s : ℕ) (cs : List ℕ) → room ≡ suc r → DelimiterStays r s cs)
      → CutStays room start q t
  unfolding fill
  last-cut room start q [] delimiter rec p e left at = cc (left, drop-nil {A = List ℕ} room)
  last-cut zero start q (d ∷ cs) delimiter rec p e left at =
      let whole_text : drop start whole ≡ p ++ (split ∷ []) =
        e
        ∙ ap (λ c. q ++ (d ∷ c)) (one_empty_piece split cs left)
        ∙ ap (λ c. q ++ (c ∷ [])) (delimiter d cs refl)
        ∙ ap (λ c. c ++ (split ∷ [])) (some-inj q p at) in
      let n = start + length q + 1 + 1 - 1 - start in
      let counted = length-append p (split ∷ []) in
      let same = ap length (some-inj q p at) in
      ap (λ c. get_elem? (slices whole (start ∷ fill split 0 (start + length q + 1) c)) 0)
        (one_empty_piece split cs left)
      ∙ ap some
          (ap (take n) whole_text ∙ take_all n (p ++ (split ∷ [])) (omega (arith, counted, same)))
  last-cut (suc room) start q (d ∷ cs) delimiter rec p e left at =
      let s = start + length q + 1 in
      ap (λ l. get_elem? l (suc room))
        (slices-first split whole start s (fill split (suc room) s cs) _ (fill-suc split room s cs))
      ∙ rec room s cs refl p (drop_cut start whole q d cs e) left at

  from_cut :
      (room start : ℕ) (text : List ℕ)
      → ((r s : ℕ) (cs : List ℕ) → room ≡ suc r → DelimiterStays r s cs)
      → DelimiterStays room start text
  from_cut room start text rec p e left at =
      let q = (skip split text).0 in
      let t = (skip split text).1 in
      let same = pieces-skip split text in
      ap (λ l. get_elem? (slices whole l) room) (fill-suc split room start text)
      ∙ last-cut room start q t (skip-delimiter split text) rec p (e ∙ sym (append-skip split text))
          (ap (drop (suc room)) (sym same) ∙ left) (ap (λ l. get_elem? l room) (sym same) ∙ at)

  final_field : (room start : ℕ) (text : List ℕ) → DelimiterStays room start text
  final_field zero start text = from_cut zero start text (λ r s cs e. absurd (omega (arith, e)))
  final_field (suc room) start text =
      from_cut (suc room) start text
        (λ r s cs e. subst (λ n. DelimiterStays n s cs) (omega (arith, e)) (final_field room s cs))

-- Where the pieces of a text that are left over behind its fields are one empty piece, the last field is
-- not its piece but the piece with the delimiter behind it.
pub field-split_message_end :
    (split room : ℕ) (text p : List ℕ)
    → drop (suc room) (pieces split text) ≡ [] ∷ []
    → get_elem? (pieces split text) room ≡ some p
    → field (split_message (suc room) split text) room ≡ some (p ++ (split ∷ []))
unfolding field split_message
field-split_message_end split room text p left at =
    let os = fill split (suc room) 0 text in
    let last = final_field split text room 0 text p refl left at in
    let counted : length (slices text os) ≡ length os - 1 = length-slices text os in
    if-elim (λ (f : Option (List ℕ)). f ≡ some (p ++ (split ∷ [])))
      (leb (length os - 1) room || leb (suc room) room) none _
      (λ e.
        let past : length (slices text os) ≤ room = ground (arith, e, counted) in
        sym (get_elem?_beyond (slices text os) room past) ∙ last)
      (λ _. sym (get_elem?-slices text os room) ∙ last)
