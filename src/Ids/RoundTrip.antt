-- ===== src/Ids/RoundTrip.antt =====
-- Identifiers from texts: what `toString` gives for what `parse` read is the text that was read.
use soa.Prelude.{
  same_bytes, same_bytes-eq, ℕ, ◌≤◌, ◌≡◌, ◌≢◌, refl, sym, ap, ◌∙◌, Bool, true, false, if-some, not,
  ◌&&◌, inl, inr, Option, Option-cases, none, some, List, [], ◌∷◌, ok, length, All, codes, ==_iff,
  ◌==◌, arith,
}
use soa.Ids.{
  Kind, unknown, none_id, null_id, uuid, goog128, bigdec, base64_96, hex128lc, uuid_caps, Ident,
  simple, string, kind_of, same_kind,
}
use soa.Ids.Characters.{Caps, no_letter, lower, upper, letter_case}
use soa.Ids.Parse.{uuid_kind, attempt, finish, parse_uuid, parse_hex128, parse_value, parse}
use soa.Ids.Print.{
  uuid_text, goog_text, bigdec_text, base64_text, hex128_text, simple_text, to_string,
}
use soa.Ids.Numbers.{
  some-inj, parse_goog-goog_text, parse_base64-base64_text, parse_hex128-hex128_text,
}
use soa.Ids.Decimals.{parse_bigdec-bigdec_text}
use soa.Ids.Uuids.{print_case, parse_uuid-uuid_text}

-- An attempt that is not made, or does not read the text, leaves it to the others.
attempt-Spells :
    (P : Ident → Type 0) (b : Bool) (x rest : Option Ident) (r : Ident)
    → attempt b x rest ≡ some r
    → (b ≡ true → x ≡ some r → P r)
    → (rest ≡ some r → P r)
    → P r
attempt-Spells P true (some y) rest r h k l = k refl h
attempt-Spells P true none rest r h k l = l h
attempt-Spells P false x rest r h k l = l h

-- No capital letter of a hexadecimal digit where there are 32 bytes, and no more than 38 bytes.
abbrev pub IsPlain : List ℕ → Type 0
IsPlain s = (length s ≡ 32 → All (λ c. letter_case c ≢ upper) s) × (length s ≤ 38)

abbrev pub Spells : List ℕ → Ident → Type 0
Spells s r = to_string r ≡ ok s

spelled :
    (s t : List ℕ) (r : Ident) (k : Kind) (v : ℕ)
    → simple k v ≡ r
    → simple_text k v ≡ ok t
    → t ≡ s
    → Spells s r
unfolding to_string
spelled s t r k v e f h = ap to_string (sym e) ∙ f ∙ ap ok h

uuid_spelled : (s : List ℕ) (r : Ident) → parse_uuid s ≡ some r → Spells s r
unfolding simple_text
uuid_spelled s r h = let (k, v, same, text) = parse_uuid-uuid_text s r h in at k v same text
  where
    at :
        (k : Caps) (v : ℕ)
        → simple (uuid_kind k) v ≡ r
        → uuid_text (print_case k) v ≡ s
        → Spells s r
    at no_letter v e t = spelled s (uuid_text lower v) r uuid v e refl t
    at lower v e t = spelled s (uuid_text lower v) r uuid v e refl t
    at upper v e t = spelled s (uuid_text upper v) r uuid_caps v e refl t

hex128_length : (s : List ℕ) (r : Ident) → parse_hex128 s ≡ some r → length s ≡ 32
unfolding parse_hex128
hex128_length s r h =
    let (test, _) = if-some (length s == 32) _ r h in (==_iff (length s) 32).0 test

not_empty : (c : ℕ) (cs : List ℕ) → (length (c ∷ cs) == 0) ≡ true → ⊥
not_empty c cs h = ground arith

plain_finish : (r : Ident) → finish unknown r ≡ ok r
plain_finish r =
    let open_kind : (not (same_kind (kind_of r) unknown) && not (same_kind unknown unknown))
        ≡ false =
      ground arith in
    rw (open_kind, finish) refl

parse_value-Spells :
    (c : ℕ) (cs : List ℕ) (r : Ident)
    → IsPlain (c ∷ cs)
    → parse_value unknown (c ∷ cs) ≡ some r
    → Spells (c ∷ cs) r
unfolding parse_value simple_text
parse_value-Spells c cs r (small, short) h =
    let s = c ∷ cs in
    attempt-Spells (Spells s) (length s == 0) _ _ r h (λ t _. absurd (not_empty c cs t))
      (λ h1.
        attempt-Spells (Spells s) (same_bytes s (codes "null")) _ _ r h1
          (λ t e.
            spelled s (codes "null") r null_id 0 (some-inj _ r e) refl
              (sym (same_bytes-eq s (codes "null") t)))
          (λ h2.
            attempt-Spells (Spells s) (same_bytes s (codes "0")) _ _ r h2
              (λ t e.
                spelled s (codes "0") r bigdec 0 (some-inj _ r e) (unfold bigdec_text in refl)
                  (sym (same_bytes-eq s (codes "0") t)))
              (λ h3.
                attempt-Spells (Spells s) true _ _ r h3 (λ _ e. uuid_spelled s r e)
                  (λ h4.
                    attempt-Spells (Spells s) true _ _ r h4
                      (λ _ e.
                        let (v, same, text) = parse_goog-goog_text s r e in
                        spelled s (goog_text v) r goog128 v same refl text)
                      (λ h5.
                        attempt-Spells (Spells s) true _ _ r h5
                          (λ _ e.
                            let (v, same, text) =
                              parse_bigdec-bigdec_text c cs r (omega (arith, short)) e in
                            spelled s (bigdec_text v) r bigdec v same refl text)
                          (λ h6.
                            attempt-Spells (Spells s) true _ _ r h6
                              (λ _ e.
                                let (v, same, text) = parse_base64-base64_text s r e in
                                spelled s (base64_text v) r base64_96 v same refl text)
                              (λ h7.
                                attempt-Spells (Spells s) true _ _ r h7
                                  (λ _ e.
                                    let (v, same, text) =
                                      parse_hex128-hex128_text s r (small (hex128_length s r e))
                                        e in
                                    spelled s (hex128_text v) r hex128lc v same refl text)
                                  (λ h8. nothing r h8))))))))
  where
    nothing : {P : Type 0} (r' : Ident) → none ≡ some r' → P
    nothing r' e = cc

-- A text that is plain is read as some identifier, without an exception, and that identifier prints
-- as the text. No kind is asked for. A text is plain that has 38 bytes at most, and no capital letter
-- of a hexadecimal digit if it has 32.
pub parse-to_string :
    (s : List ℕ) → IsPlain s → (r : Ident) × (parse unknown s ≡ ok r) × (to_string r ≡ ok s)
unfolding parse parse_value to_string simple_text
parse-to_string [] h = (simple none_id 0, refl, refl)
parse-to_string (c ∷ cs) h = elim (Option-cases (parse_value unknown (c ∷ cs))) [
  | inl e ↦ (string (c ∷ cs), rw (e, parse) refl, refl)
  | inr (r, e) ↦ (r, rw (e, parse) (plain_finish r), parse_value-Spells c cs r h e)
]
