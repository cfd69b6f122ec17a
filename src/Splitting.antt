-- ===== src/Splitting.antt =====
-- logger/log_message_splitter.h: `LogMessageSplitter`. A text is a list of bytes, and a pointer into it
-- the number of bytes before it. A field by a number below zero, which is refused like one too large,
-- does not occur.
pub mod Pieces
pub mod Fields
pub mod Ends
pub mod Comparing
mod Examples
use soa.Prelude.{
  ℕ, zero, suc, ◌+◌, ◌-◌, Bool, true, ◌&&◌, Option, none, some, List, [], ◌∷◌, length, take, drop,
  get_elem?, leb, ◌==◌, ◌||◌, if◌then◌else◌,
}

-- The bytes up to the first delimiter, and what is there from it on.
abbrev pub skip : ℕ → List ℕ → List ℕ × List ℕ
skip split [] = ([], [])
skip split (c ∷ cs) =
    if c == split then ([], c ∷ cs) else (c ∷ (skip split cs).0, (skip split cs).1)

-- The last offset, where the loop has ended at a byte, or behind the last one.
abbrev pub last_offset : ℕ → List ℕ → ℕ
last_offset start [] = start + 1
last_offset start (c ∷ cs) = start

-- The offsets from a field on, where there is room for so many more.
unfoldable pub fill : ℕ → ℕ → ℕ → List ℕ → List ℕ
fill split zero start rest = last_offset start rest ∷ []
fill split (suc room) start rest =
    let r = skip split rest in
    start ∷ elim r.1 [
      | [] ↦ (start + length r.0 + 1) ∷ []
      | c ∷ cs ↦ fill split room (start + length r.0 + 1) cs
    ]

pub record Splitter : Type 0 where
  pub str : List ℕ
  pub max_fields : ℕ
  pub num_fields : ℕ
  pub offsets : List ℕ

unfoldable pub split_message : ℕ → ℕ → List ℕ → Splitter
unfolding fill
split_message max split str = record {
  str = str;
  max_fields = max;
  num_fields = length (fill split max 0 str) - 1;
  offsets = fill split max 0 str;
}

abbrev pub between_offsets : List ℕ → Option ℕ → Option ℕ → Option (List ℕ)
between_offsets str (some a) (some b) = some (take (b - 1 - a) (drop a str))
between_offsets str _ _ = none

-- `operator []`, or nothing where it throws.
unfoldable pub field : Splitter → ℕ → Option (List ℕ)
field s i =
    if leb s.num_fields i || leb s.max_fields i
    then none
    else between_offsets s.str (get_elem? s.offsets i) (get_elem? s.offsets (suc i))

-- `Field::operator ==`: strncmp of the field with a text, which ends in a 0, as far as the field goes.
unfoldable pub field_equals : List ℕ → List ℕ → Bool
field_equals [] text = true
field_equals (c ∷ cs) [] = c == 0
field_equals (c ∷ cs) (d ∷ ds) = c == d && (c == 0 || field_equals cs ds)
