-- ===== src/Ids/Uuids.antt =====
-- UUIDs: what is printed for what was read is what was read.
use mathlib.Core.List.{append-nil}
use mathlib.Core.Path.{ap₂}
use soa.Prelude.{
  ℕ, suc, ◌+◌, ◌*◌, ◌%◌, ◌^◌, ◌<◌, ◌≤◌, ◌≡◌, refl, sym, ap, subst, ◌∙◌, true, &&-both, if-some,
  match-some, ◌&&◌, ◌⊎◌, inl, inr, Option-cases, some, List, [], ◌∷◌, ◌++◌, length, drop, take-drop,
  take_all, drop-drop, drop-cons, get_elem?, length-take, length-drop, All, ==_iff, ◌==◌, arith,
}
use soa.Prelude.Digits.{scan, scan_good, top, IsDigitOf, scan-print}
use soa.Ids.{Ident, simple, f1, f2, f3, f4, f5, uuid_fields}
use soa.Ids.Characters.{
  Caps, no_letter, lower, upper, letter_case, hex_to_dec, hex_char, hex-IsDigitOf,
}
use soa.Ids.Parse.{byte_at, join_case, scan_range, slice, uuid_kind, parse_uuid}
use soa.Ids.Print.{hex, uuid_text}
use soa.Ids.Numbers.{some-inj}

-- The letters so far have the case k where those up to now have the case l.
abbrev Grown : Caps → Caps → Type 0
Grown k l = (k ≡ no_letter) ⊎ (k ≡ l)

abbrev Fits : Caps → ℕ → Type 0
Fits l c = (letter_case c ≡ no_letter) ⊎ (letter_case c ≡ l)

join-Grown : (k m l : Caps) → join_case k m ≡ some l → Grown k l × ((m ≡ no_letter) ⊎ (m ≡ l))
join-Grown no_letter no_letter l h = (inl refl, inl refl)
join-Grown no_letter lower l h = (inl refl, inr (some-inj lower l h))
join-Grown no_letter upper l h = (inl refl, inr (some-inj upper l h))
join-Grown lower no_letter l h = (inr (some-inj lower l h), inl refl)
join-Grown lower lower l h = (inr (some-inj lower l h), inr (some-inj lower l h))
join-Grown lower upper l h = cc
join-Grown upper no_letter l h = (inr (some-inj upper l h), inl refl)
join-Grown upper lower l h = cc
join-Grown upper upper l h = (inr (some-inj upper l h), inr (some-inj upper l h))

Grown-trans : (k l m : Caps) → Grown k l → Grown l m → Grown k m
Grown-trans k l m (inl e) h = inl e
Grown-trans k l m (inr e) (inl f) = inl (e ∙ f)
Grown-trans k l m (inr e) (inr f) = inr (e ∙ f)

Fits-Grown : (k l : Caps) (c : ℕ) → Grown k l → Fits k c → Fits l c
Fits-Grown k l c h (inl e) = inl e
Fits-Grown k l c (inl h) (inr e) = inl (e ∙ h)
Fits-Grown k l c (inr h) (inr e) = inr (e ∙ h)

All-Fits : (k l : Caps) (s : List ℕ) → Grown k l → All (Fits k) s → All (Fits l) s
All-Fits k l [] h a = tt
All-Fits k l (c ∷ s) h a = (Fits-Grown k l c h a.0, All-Fits k l s h a.1)

scan_range-scan :
    (k l : Caps) (s : List ℕ) (a v : ℕ) (r : Caps × ℕ)
    → r ≡ (l, v)
    → scan_range k s a ≡ some r
    → Grown k l × All (Fits l) s × (scan hex_to_dec (hex_char l) 16 (2 ^ 64) s a ≡ some v)
unfolding scan_range
scan_range-scan k l [] a v r e h =
    let same : (k, a) ≡ (l, v) = some-inj (k, a) r h ∙ e in
    (inr (ap (λ p. p.0) same), tt, ap (λ p. some (p.1)) same)
scan_range-scan k l (c ∷ s) a v r e h =
    let (m, joined, next) = match-some (join_case k (letter_case c)) _ r h in
    let (d, digit, rest) = match-some (hex_to_dec c) _ r next in
    let (grown, fits) = join-Grown k (letter_case c) m joined in
    let (more, all, value) = scan_range-scan m l s ((a * 16 + d) % 2 ^ 64) v r e rest in
    (
      Grown-trans k m l grown more,
      (Fits-Grown m l c more fits, all),
      scan_good hex_to_dec (hex_char l) 16 (2 ^ 64) c s a d digit ∙ value,
    )

hex_digits : (k : Caps) (s : List ℕ) → All (Fits k) s → All (IsDigitOf hex_to_dec (hex_char k) 16) s
hex_digits k [] h = tt
hex_digits k (c ∷ s) h = (hex-IsDigitOf k c h.0, hex_digits k s h.1)

-- One part of a UUID, printed in the case that the whole has in the end.
part :
    (k l z : Caps) (s : List ℕ) (n v : ℕ)
    → length s ≡ n
    → top hex_to_dec (hex_char z) 16 n 0 < 2 ^ 64
    → scan_range k s 0 ≡ some (l, v)
    → Grown l z
    → Grown k z × (hex z n v ≡ s) × (v ≤ top hex_to_dec (hex_char z) 16 n 0)
part k l z s n v h fits e g =
    let (grown, all, read) = scan_range-scan k l s 0 v (l, v) refl e in
    let (_, text, most) =
      scan-print hex_to_dec (hex_char z) 16 (2 ^ 64) s 0 v [] (omega arith)
        (hex_digits z s (All-Fits l z s g all)) (rw h fits) read in
    (
      Grown-trans k l z grown g,
      sym (ap (λ m. hex z m v) h) ∙ text ∙ append-nil s,
      subst (λ (m : ℕ). v ≤ top hex_to_dec (hex_char z) 16 m 0) h most,
    )

byte_at-get_elem? : (i : ℕ) (s : List ℕ) → (byte_at i s == b'-') ≡ true → get_elem? s i ≡ some b'-'
byte_at-get_elem? i s h = elim (Option-cases (get_elem? s i)) [
  | inl out ↦ ground (arith, out)
  | inr (c, e) ↦ ground (arith, e)
]

-- A text from one position on, up to a dash.
dash :
    (i n : ℕ) (s : List ℕ)
    → (byte_at (i + n) s == b'-') ≡ true
    → drop i s ≡ slice i n s ++ (b'-' ∷ drop (suc (i + n)) s)
dash i n s h =
    sym (take-drop n (drop i s))
    ∙ ap (λ t. slice i n s ++ t)
        (drop-drop n i s ∙ drop-cons (i + n) s b'-' (byte_at-get_elem? (i + n) s h))

module _ (a b c d e : ℕ) (ha : a < 2 ^ 32) (hb : b < 2 ^ 16) (hc : c < 2 ^ 16) (hd : d < 2 ^ 16)
    (he : e < 2 ^ 48) where
  field_1 : f1 (uuid_fields a b c d e) ≡ a
  field_1 = omega (arith, ha)

  field_2 : f2 (uuid_fields a b c d e) ≡ b
  field_2 = omega (arith, ha, hb)

  field_3 : f3 (uuid_fields a b c d e) ≡ c
  field_3 = omega (arith, ha, hb, hc)

  field_4 : f4 (uuid_fields a b c d e) ≡ d
  field_4 = omega (arith, ha, hb, hc, hd)

  field_5 : f5 (uuid_fields a b c d e) ≡ e
  field_5 = omega (arith, ha, hb, hc, hd, he)

-- The case in which a UUID is printed.
abbrev pub print_case : Caps → Caps
print_case upper = upper
print_case _ = lower

print_case-Grown : (k : Caps) → Grown k (print_case k)
print_case-Grown no_letter = inl refl
print_case-Grown lower = inr refl
print_case-Grown upper = inr refl

-- The whole text of a UUID by its parts.
parts :
    (s : List ℕ)
    → length s ≡ 36
    → (byte_at 8 s == b'-') ≡ true
    → (byte_at 13 s == b'-') ≡ true
    → (byte_at 18 s == b'-') ≡ true
    → (byte_at 23 s == b'-') ≡ true
    → s
      ≡ slice 0 8 s
        ++ (b'-'
            ∷ (slice 9 4 s
                ++ (b'-' ∷ (slice 14 4 s ++ (b'-' ∷ (slice 19 4 s ++ (b'-' ∷ slice 24 12 s)))))))
parts s h h8 h13 h18 h23 =
    let last : slice 24 12 s ≡ drop 24 s =
      take_all 12 (drop 24 s) (omega (arith, length-drop 24 s, h)) in
    dash 0 8 s h8
    ∙ ap (λ t. slice 0 8 s ++ (b'-' ∷ t))
        (dash 9 4 s h13
          ∙ ap (λ t. slice 9 4 s ++ (b'-' ∷ t))
              (dash 14 4 s h18
                ∙ ap (λ t. slice 14 4 s ++ (b'-' ∷ t))
                    (dash 19 4 s h23 ∙ ap (λ t. slice 19 4 s ++ (b'-' ∷ t)) (sym last))))

length-slice : (start n : ℕ) (s : List ℕ) → n + start ≤ length s → length (slice start n s) ≡ n
length-slice start n s h = length-take n (drop start s) (omega (arith, length-drop start s, h))

join_dash : (s t u v : List ℕ) → s ≡ t → u ≡ v → s ++ (b'-' ∷ u) ≡ t ++ (b'-' ∷ v)
join_dash s t u v e f = ap₂ (λ x y. x ++ (b'-' ∷ y)) e f

-- The parts of a UUID that is printed are those that were read.
joined :
    (z : Caps) (a b c d e : ℕ) (s1 s2 s3 s4 s5 : List ℕ)
    → a < 2 ^ 32
    → b < 2 ^ 16
    → c < 2 ^ 16
    → d < 2 ^ 16
    → e < 2 ^ 48
    → hex z 8 a ≡ s1
    → hex z 4 b ≡ s2
    → hex z 4 c ≡ s3
    → hex z 4 d ≡ s4
    → hex z 12 e ≡ s5
    → uuid_text z (uuid_fields a b c d e)
      ≡ s1 ++ (b'-' ∷ (s2 ++ (b'-' ∷ (s3 ++ (b'-' ∷ (s4 ++ (b'-' ∷ s5)))))))
unfolding uuid_text
joined z a b c d e s1 s2 s3 s4 s5 ha hb hc hd he t1 t2 t3 t4 t5 =
    join_dash _ s1 _ _ (ap (hex z 8) (field_1 a b c d e ha hb hc hd he) ∙ t1) (
      join_dash _ s2 _ _ (ap (hex z 4) (field_2 a b c d e ha hb hc hd he) ∙ t2) (
        join_dash _ s3 _ _ (ap (hex z 4) (field_3 a b c d e ha hb hc hd he) ∙ t3) (
          join_dash _ s4 _ s5 (ap (hex z 4) (field_4 a b c d e ha hb hc hd he) ∙ t4)
            (ap (hex z 12) (field_5 a b c d e ha hb hc hd he) ∙ t5))))

pub parse_uuid-uuid_text :
    (s : List ℕ) (r : Ident)
    → parse_uuid s ≡ some r
    → (k : Caps) × (v : ℕ) × (simple (uuid_kind k) v ≡ r) × (uuid_text (print_case k) v ≡ s)
unfolding parse_uuid
parse_uuid-uuid_text s r h =
    let (test, found) =
      if-some
        (length s == 36
          && byte_at 8 s == b'-'
          && byte_at 13 s == b'-'
          && byte_at 18 s == b'-'
          && byte_at 23 s == b'-')
        _ r h in
    let (test4, h23) = &&-both _ (byte_at 23 s == b'-') test in
    let (test3, h18) = &&-both _ (byte_at 18 s == b'-') test4 in
    let (test2, h13) = &&-both _ (byte_at 13 s == b'-') test3 in
    let (test1, h8) = &&-both _ (byte_at 8 s == b'-') test2 in
    let long = (==_iff (length s) 36).0 test1 in
    let (r1, e1, found1) = match-some (scan_range no_letter (slice 0 8 s) 0) _ r found in
    let (r2, e2, found2) = match-some (scan_range r1.0 (slice 9 4 s) 0) _ r found1 in
    let (r3, e3, found3) = match-some (scan_range r2.0 (slice 14 4 s) 0) _ r found2 in
    let (r4, e4, found4) = match-some (scan_range r3.0 (slice 19 4 s) 0) _ r found3 in
    let (r5, e5, same) = match-some (scan_range r4.0 (slice 24 12 s) 0) _ r found4 in
    let z = print_case r5.0 in
    let (g5, t5, b5) =
      part r4.0 r5.0 z (slice 24 12 s) 12 r5.1 (length-slice 24 12 s (omega (arith, long)))
        (omega arith) e5 (print_case-Grown r5.0) in
    let (g4, t4, b4) =
      part r3.0 r4.0 z (slice 19 4 s) 4 r4.1 (length-slice 19 4 s (omega (arith, long)))
        (omega arith) e4 g5 in
    let (g3, t3, b3) =
      part r2.0 r3.0 z (slice 14 4 s) 4 r3.1 (length-slice 14 4 s (omega (arith, long)))
        (omega arith) e3 g4 in
    let (g2, t2, b2) =
      part r1.0 r2.0 z (slice 9 4 s) 4 r2.1 (length-slice 9 4 s (omega (arith, long))) (omega arith)
        e2 g3 in
    let (_, t1, b1) =
      part no_letter r1.0 z (slice 0 8 s) 8 r1.1 (length-slice 0 8 s (omega (arith, long)))
        (omega arith) e1 g2 in
    (
      r5.0,
      uuid_fields r1.1 r2.1 r3.1 r4.1 r5.1,
      some-inj _ r same,
      joined z r1.1 r2.1 r3.1 r4.1 r5.1 (slice 0 8 s) (slice 9 4 s) (slice 14 4 s) (slice 19 4 s)
            (slice 24 12 s) (omega (arith, b1)) (omega (arith, b2)) (omega (arith, b3))
            (omega (arith, b4)) (omega (arith, b5)) t1 t2 t3 t4 t5
          ∙ sym (parts s long h8 h13 h18 h23),
    )
