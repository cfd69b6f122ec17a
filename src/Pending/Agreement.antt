-- ===== src/Pending/Agreement.antt =====
-- service/pending_list.h: what is asked of a store and of its codec, and when a store holds the keys and
-- the values of a function.
use mathlib.Core.Logic.{ite, if_pos, if_neg}
use mathlib.Core.Path.{ap₂}
use native.Mathlib.Decide.{ℕ_discrete}
use soa.Prelude.{ℕ, ◌≡◌, ◌⊎◌, inl, inr, refl, sym, ap, ◌∙◌, true, Option, none, some, List, [], ◌∷◌}
use soa.Timeouts.{Date}
use soa.Timeouts.Refinement.{Abstract, write}
use soa.Pending.{Text, Persistence, save, forget}

pub heads-eq : (x y : ℕ) (xs ys : Text) → x ∷ xs ≡ y ∷ ys → x ≡ y
heads-eq x y xs ys e = cc

pub tails-eq : (x y : ℕ) (xs ys : Text) → x ∷ xs ≡ y ∷ ys → xs ≡ ys
tails-eq x y xs ys e = cc

unfoldable pub text_eq : Discrete Text
unfolding ℕ_discrete
text_eq [] [] = yes refl
text_eq [] (y ∷ ys) = no (λ e. cc)
text_eq (x ∷ xs) [] = no (λ e. cc)
text_eq (x ∷ xs) (y ∷ ys) = elim (ℕ_discrete x y) [
  | no other ↦ no (λ e. other (heads-eq x y xs ys e))
  | yes same ↦ elim (text_eq xs ys) [
    | no other ↦ no (λ e. other (tails-eq x y xs ys e))
    | yes rest ↦ yes (ap₂ (λ (z : ℕ) (zs : Text). z ∷ zs) same rest)
  ]
]

unfoldable pub lookup : Text → List (Text × Text) → Option Text
unfolding text_eq
lookup t [] = none
lookup t ((u, x) ∷ es) = ite (text_eq u t) (some x) (lookup t es)

-- No key has two entries.
abbrev pub Distinct : List (Text × Text) → Type 0
Distinct [] = Unit
Distinct ((t, x) ∷ es) = (lookup t es ≡ none) × Distinct es

-- A store keeps what is put into it, and the codec reads what it writes.
pub record IsFaithful {K V Store : Type 0} (ps : Persistence K V Store) : Type 0 where
  pub key-again : (k : K) → ps.unstringify_key (ps.stringify_key k) ≡ some k
  pub value-again : (v : V) → ps.unstringify_value (ps.stringify_value v) ≡ some v
  pub lookup-put :
      (t u x : Text) (s : Store)
      → lookup u (ps.entries (ps.put t x s)) ≡ ite (text_eq t u) (some x) (lookup u (ps.entries s))
  pub lookup-delete :
      (t u : Text) (s : Store)
      → lookup u (ps.entries (ps.delete t s)) ≡ ite (text_eq t u) none (lookup u (ps.entries s))
  pub distinct : (s : Store) → Distinct (ps.entries s)

module _ {K V Store : Type 0} (ps : Persistence K V Store) where
  abbrev pub written : Option (V × Date) → Option Text
  written none = none
  written (some (v, d)) = some (ps.stringify_value v)

  -- The entries of the store are those that are written for the keys of a function.
  pub record Agrees (s : Store) (a : Abstract K V) : Type 0 where
    pub same : (k : K) → lookup (ps.stringify_key k) (ps.entries s) ≡ written (a k)
    pub only : (t : Text) → (lookup t (ps.entries s) ≡ none) ⊎ ((k : K) × (t ≡ ps.stringify_key k))

  pub Agrees-cong :
      (s : Store) (a b : Abstract K V) → Agrees s a → ((k : K) → a k ≡ b k) → Agrees s b
  Agrees-cong s a b h e = record { same = λ k. h.same k ∙ ap written (e k); only = h.only }

  pub some-inj : {A : Type 0} (a b : A) → some a ≡ some b → a ≡ b
  some-inj {A = A} a b e = ap (λ (o : Option A). elim o [ none ↦ a | some x ↦ x ]) e

  module _ (dec : Discrete K) (laws : IsFaithful ps) where
    pub stringify_key-inj : (k j : K) → ps.stringify_key k ≡ ps.stringify_key j → k ≡ j
    stringify_key-inj k j e =
        some-inj k j (sym (laws.key-again k) ∙ ap ps.unstringify_key e ∙ laws.key-again j)

    written-write :
        (k j : K) (x : Option (V × Date)) (y : Option Text) (a : Abstract K V)
        → y ≡ written (a j)
        → ite (text_eq (ps.stringify_key k) (ps.stringify_key j)) (written x) y
          ≡ written (write dec k x a j)
    written-write k j x y a e =
        let t = ps.stringify_key k in
        let u = ps.stringify_key j in
        elim (dec k j) [
          | yes same ↦
              if_pos (text_eq t u) (ap ps.stringify_key same) (written x) y
              ∙ ap written (sym (if_pos (dec k j) same x (a j)))
          | no other ↦
              if_neg (text_eq t u) (λ same. other (stringify_key-inj k j same)) (written x) y
              ∙ e
              ∙ ap written (sym (if_neg (dec k j) other x (a j)))
        ]

    pub save-Agrees :
        (k : K) (v : V) (d : Date) (s : Store) (a : Abstract K V)
        → Agrees s a
        → Agrees (save dec ps k v true s) (write dec k (some (v, d)) a)
    save-Agrees k v d s a h =
        let t = ps.stringify_key k in
        record {
          same = λ j.
              laws.lookup-put t (ps.stringify_key j) (ps.stringify_value v) s
              ∙ written-write k j (some (v, d)) (lookup (ps.stringify_key j) (ps.entries s)) a
                  (h.same j);
          only = λ u. elim (text_eq t u) [
            | yes same ↦ inr (k, sym same)
            | no other ↦ elim (h.only u) [
              | inl e ↦ inl (
                  laws.lookup-put t u (ps.stringify_value v) s
                  ∙ if_neg (text_eq t u) other (some (ps.stringify_value v))
                      (lookup u (ps.entries s))
                  ∙ e)
              | inr known ↦ inr known
            ]
          ];
        }

    pub forget-Agrees :
        (k : K) (s : Store) (a : Abstract K V)
        → Agrees s a
        → Agrees (forget dec ps k true s) (write dec k none a)
    forget-Agrees k s a h =
        let t = ps.stringify_key k in
        record {
          same = λ j.
              laws.lookup-delete t (ps.stringify_key j) s
              ∙ written-write k j none (lookup (ps.stringify_key j) (ps.entries s)) a (h.same j);
          only = λ u. elim (text_eq t u) [
            | yes same ↦ inl (
                laws.lookup-delete t u s ∙ if_pos (text_eq t u) same none (lookup u (ps.entries s)))
            | no other ↦ elim (h.only u) [
              | inl e ↦ inl (
                  laws.lookup-delete t u s
                  ∙ if_neg (text_eq t u) other none (lookup u (ps.entries s))
                  ∙ e)
              | inr known ↦ inr known
            ]
          ];
        }
