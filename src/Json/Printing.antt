-- ===== src/Json/Printing.antt =====
-- types/json_printing.cc: printing a value by its calls writes its text.
use mathlib.Core.List.{append_assoc, append-nil}
use soa.Prelude.{
  ℕ, ◌+◌, ◌≡◌, refl, sym, ap, ◌∙◌, Bool, true, false, Bool-cases, inl, inr, List, [], ◌∷◌, ◌++◌,
  Outcome, ok, err, ◌>>=◌, ◌==◌, if◌then◌else◌, codes, arith,
}
use soa.Json.{
  Bytes, Writers, JsonFault, PathEntry, StreamContext, write_string_utf8, quoted, PrintCall,
  end_array, end_object, put_text, perform_all,
}
use soa.Json.Trees.{
  Value, null, boolean, number, text, utf8_text, array, object, Elements, no_elements, element,
  Members, no_members, member, calls, element_calls, member_calls, comma, print, print_elements,
  print_members,
}

bind-cong :
    {C : Type 0} (o : Outcome JsonFault Bytes) (f g : Bytes → Outcome JsonFault C)
    → ((t : Bytes) → f t ≡ g t)
    → (o >>= f) ≡ (o >>= g)
bind-cong (ok t) f g h = h t
bind-cong (err e) f g h = refl

bind_assoc :
    {C : Type 0} (o : Outcome JsonFault Bytes) (f : Bytes → Bytes) (k : Bytes → Outcome JsonFault C)
    → ((o >>= λ t. ok (f t)) >>= k) ≡ (o >>= λ t. k (f t))
bind_assoc (ok t) f k = refl
bind_assoc (err e) f k = refl

bind_both :
    {C : Type 0} (o p : Outcome JsonFault Bytes) (f : Bytes → Bytes → Bytes)
    (k : Bytes → Outcome JsonFault C)
    → ((o >>= λ t. p >>= λ u. ok (f t u)) >>= k) ≡ (o >>= λ t. p >>= λ u. k (f t u))
bind_both (ok t) (ok u) f k = refl
bind_both (ok t) (err e) f k = refl
bind_both (err e) p f k = refl

module _ (w : Writers) (write_utf8 : Bool) where
  abbrev at : Bool → ℕ → List PathEntry → Bytes → StreamContext
  at of_object n es out = record {
    path = record { is_object = of_object; members = n } ∷ es;
    out = out;
  }

  abbrev with_comma : ℕ → Bytes → Bytes
  with_comma n out = if n == 0 then out else out ++ (b',' ∷ [])

  with_comma_lem : (n : ℕ) (out : Bytes) → with_comma n out ≡ out ++ comma w write_utf8 (n == 0)
  with_comma_lem n out = elim (Bool-cases (n == 0)) [
    | inl first ↦ rw first (sym (append-nil out))
    | inr later ↦ rw later refl
  ]

  abbrev more : ℕ → Elements → ℕ
  more n no_elements = n
  more n (element v es) = more (n + 1) es

  abbrev more_members : ℕ → Members → ℕ
  more_members n no_members = n
  more_members n (member name v ms) = more_members (n + 1) ms

  later : (n : ℕ) → ((n + 1) == 0) ≡ false
  later n = ground arith

  abbrev Prints : Value → Type 0
  Prints v =
      (ps : List PrintCall) (c : StreamContext)
      → perform_all w write_utf8 (calls v ps) c
        ≡ (print w write_utf8 v >>= λ t. perform_all w write_utf8 ps (put_text w write_utf8 t c))

  abbrev PrintsElements : Elements → Type 0
  PrintsElements es =
      (ps : List PrintCall) (n : ℕ) (path : List PathEntry) (out : Bytes)
      → perform_all w write_utf8 (element_calls es ps) (at false n path out) ≡ (
          print_elements w write_utf8 (n == 0) es >>= λ t.
          perform_all w write_utf8 ps (at false (more n es) path (out ++ t)))

  abbrev PrintsMembers : Members → Type 0
  PrintsMembers ms =
      (ps : List PrintCall) (n : ℕ) (path : List PathEntry) (out : Bytes)
      → perform_all w write_utf8 (member_calls ms ps) (at true n path out) ≡ (
          print_members w write_utf8 (n == 0) ms >>= λ t.
          perform_all w write_utf8 ps (at true (more_members n ms) path (out ++ t)))

  element-Prints :
      (v : Value) (es : Elements) → Prints v → PrintsElements es → PrintsElements (element v es)
  unfolding calls print perform_all
  element-Prints v es pv pes ps n path out =
      let o = print w write_utf8 v in
      let p = print_elements w write_utf8 false es in
      let out1 = with_comma n out in
      let k = λ (x : Bytes). perform_all w write_utf8 ps (at false (more (n + 1) es) path x) in
      pv (element_calls es ps) (at false (n + 1) path out1)
      ∙ bind-cong o
          (λ t. perform_all w write_utf8 (element_calls es ps) (at false (n + 1) path (out1 ++ t)))
          (λ t. p >>= λ u. k (out ++ (comma w write_utf8 (n == 0) ++ t ++ u)))
          (λ t.
            pes ps (n + 1) path (out1 ++ t)
            ∙ ap (λ b. print_elements w write_utf8 b es >>= λ u. k ((out1 ++ t) ++ u)) (later n)
            ∙ bind-cong p (λ u. k ((out1 ++ t) ++ u))
                (λ u. k (out ++ (comma w write_utf8 (n == 0) ++ t ++ u)))
                (λ u. ap k (rw (with_comma_lem n out) (simp append_assoc refl))))
      ∙ sym (bind_both o p (λ t u. comma w write_utf8 (n == 0) ++ t ++ u) (λ x. k (out ++ x)))

  member-Prints :
      (name : Bytes) (v : Value) (ms : Members)
      → Prints v
      → PrintsMembers ms
      → PrintsMembers (member name v ms)
  unfolding calls print perform_all
  member-Prints name v ms pv pms ps n path out =
      let o = print w write_utf8 v in
      let p = print_members w write_utf8 false ms in
      let label = quoted (w.json_escape name) ++ codes ":" in
      let out1 = with_comma n out ++ label in
      let k =
        λ (x : Bytes). perform_all w write_utf8 ps (at true (more_members (n + 1) ms) path x) in
      let whole = λ (t u : Bytes). comma w write_utf8 (n == 0) ++ label ++ t ++ u in
      pv (member_calls ms ps) (at true (n + 1) path out1)
      ∙ bind-cong o
          (λ t. perform_all w write_utf8 (member_calls ms ps) (at true (n + 1) path (out1 ++ t)))
          (λ t. p >>= λ u. k (out ++ whole t u))
          (λ t.
            pms ps (n + 1) path (out1 ++ t)
            ∙ ap (λ b. print_members w write_utf8 b ms >>= λ u. k ((out1 ++ t) ++ u)) (later n)
            ∙ bind-cong p (λ u. k ((out1 ++ t) ++ u)) (λ u. k (out ++ whole t u))
                (λ u. ap k (rw (with_comma_lem n out) (simp append_assoc refl))))
      ∙ sym (bind_both o p whole (λ x. k (out ++ x)))

  array-Prints : (es : Elements) → PrintsElements es → Prints (array es)
  unfolding calls print perform_all
  array-Prints es pes ps c =
      let k = λ (x : Bytes). perform_all w write_utf8 ps (record { path = c.path; out = x }) in
      pes (end_array ∷ ps) 0 c.path (c.out ++ codes "[")
      ∙ bind-cong (print_elements w write_utf8 true es)
          (λ t. k (((c.out ++ codes "[") ++ t) ++ codes "]"))
          (λ t. k (c.out ++ (b'[' ∷ t ++ codes "]"))) (λ t. ap k (simp append_assoc refl))
      ∙ sym (
          bind_assoc (print_elements w write_utf8 true es) (λ t. b'[' ∷ t ++ codes "]")
            (λ x. k (c.out ++ x)))

  object-Prints : (ms : Members) → PrintsMembers ms → Prints (object ms)
  unfolding calls print perform_all
  object-Prints ms pms ps c =
      let k = λ (x : Bytes). perform_all w write_utf8 ps (record { path = c.path; out = x }) in
      pms (end_object ∷ ps) 0 c.path (c.out ++ codes "{")
      ∙ bind-cong (print_members w write_utf8 true ms)
          (λ t. k (((c.out ++ codes "{") ++ t) ++ codes "}"))
          (λ t. k (c.out ++ (b'{' ∷ t ++ codes "}"))) (λ t. ap k (simp append_assoc refl))
      ∙ sym (
          bind_assoc (print_members w write_utf8 true ms) (λ t. b'{' ∷ t ++ codes "}")
            (λ x. k (c.out ++ x)))

  utf8_text-Prints : (s : List ℕ) → Prints (utf8_text s)
  unfolding calls print perform_all
  utf8_text-Prints s ps c =
      wrote (write_string_utf8 w write_utf8 s) (λ d. perform_all w write_utf8 ps d)
    where
      wrote :
          (o : Outcome JsonFault Bytes) (k : StreamContext → Outcome JsonFault StreamContext)
          → ((o >>= λ t. ok (put_text w write_utf8 t c)) >>= k)
            ≡ (o >>= λ t. k (put_text w write_utf8 t c))
      wrote (ok t) k = refl
      wrote (err e) k = refl

mutual
  unfolding calls print perform_all

  all-Prints : (w : Writers) (b : Bool) (v : Value) → Prints w b v
  all-Prints w b null ps c = refl
  all-Prints w b (boolean x) ps c = refl
  all-Prints w b (number t) ps c = refl
  all-Prints w b (text s) ps c = refl
  all-Prints w b (utf8_text s) ps c = utf8_text-Prints w b s ps c
  all-Prints w b (array es) ps c = array-Prints w b es (elements-Prints w b es) ps c
  all-Prints w b (object ms) ps c = object-Prints w b ms (members-Prints w b ms) ps c

  elements-Prints : (w : Writers) (b : Bool) (es : Elements) → PrintsElements w b es
  elements-Prints w b no_elements ps n path out =
      ap (λ o. perform_all w b ps (at w b false n path o)) (sym (append-nil out))
  elements-Prints w b (element v es) ps n path out =
      element-Prints w b v es (all-Prints w b v) (elements-Prints w b es) ps n path out

  members-Prints : (w : Writers) (b : Bool) (ms : Members) → PrintsMembers w b ms
  members-Prints w b no_members ps n path out =
      ap (λ o. perform_all w b ps (at w b true n path o)) (sym (append-nil out))
  members-Prints w b (member name v ms) ps n path out =
      member-Prints w b name v ms (all-Prints w b v) (members-Prints w b ms) ps n path out

-- The calls for a value, whatever was called before and is called after them, write the text of the value:
-- its elements and members with a comma between any two, in brackets of their kind. The path of open
-- containers is as it was before, and the calls throw exactly where a string of the value cannot be written.
pub perform_all-calls :
    (w : Writers) (write_utf8 : Bool) (v : Value) (ps : List PrintCall) (c : StreamContext)
    → perform_all w write_utf8 (calls v ps) c ≡ (
        print w write_utf8 v >>= λ t.
        perform_all w write_utf8 ps (record { path = c.path; out = c.out ++ t }))
perform_all-calls w write_utf8 v ps c = all-Prints w write_utf8 v ps c
