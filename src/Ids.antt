-- ===== src/Ids.antt =====
-- types/id.h, types/id.cc: identifiers. The union of an Id is one 128-bit number, `val`, of which the
-- other members are parts; strings and compound identifiers own what they point to.
pub mod Characters
pub mod Parse
pub mod Print
pub mod Numbers
pub mod Decimals
pub mod Uuids
pub mod RoundTrip
pub mod Store
pub mod Stored
pub mod Order
pub mod Keys
pub mod Comparing
mod Examples
use soa.Prelude.{ℕ, ◌/◌, ◌%◌, ◌+◌, ◌*◌, ◌^◌, Bool, true, false, ◌&&◌, List, [], ◌∷◌, Outcome, ◌==◌}

pub data Kind : Type 0 where
  unknown none_id null_id uuid goog128 bigdec base64_96 hex128lc int64dec uuid_caps str compound2 :
      Kind

pub data Ident : Type 0 where
  simple : Kind → ℕ → Ident
  string : List ℕ → Ident
  compound : Ident → Ident → Ident

pub data Fault : Type 0 where
  changed_type unknown_type bad_version end_of_store not_a_number too_large : Fault

abbrev pub Result : Type 0 → Type 0
Result A = Outcome Fault A

abbrev pub kind_of : Ident → Kind
kind_of (simple k v) = k
kind_of (string s) = str
kind_of (compound a b) = compound2

-- The members of the union.
abbrev pub val1 : ℕ → ℕ
val1 v = v % 2 ^ 64

abbrev pub val2 : ℕ → ℕ
val2 v = v / 2 ^ 64 % 2 ^ 64

abbrev pub f1 : ℕ → ℕ
f1 v = v % 2 ^ 32

abbrev pub f2 : ℕ → ℕ
f2 v = v / 2 ^ 32 % 2 ^ 16

abbrev pub f3 : ℕ → ℕ
f3 v = v / 2 ^ 48 % 2 ^ 16

abbrev pub f4 : ℕ → ℕ
f4 v = v / 2 ^ 64 % 2 ^ 16

abbrev pub f5 : ℕ → ℕ
f5 v = v / 2 ^ 80 % 2 ^ 48

-- The union with its uuid members written, each cut to its width.
abbrev pub uuid_fields : ℕ → ℕ → ℕ → ℕ → ℕ → ℕ
uuid_fields a b c d e =
    a % 2 ^ 32
    + 2 ^ 32 * (b % 2 ^ 16)
    + 2 ^ 48 * (c % 2 ^ 16)
    + 2 ^ 64 * (d % 2 ^ 16)
    + 2 ^ 80 * (e % 2 ^ 48)

-- The union with val1 and val2 written.
abbrev pub two_halves : ℕ → ℕ → ℕ
two_halves a b = a % 2 ^ 64 + 2 ^ 64 * (b % 2 ^ 64)

-- The number of a kind in the source's enumeration.
abbrev pub kind_code : Kind → ℕ
kind_code none_id = 0
kind_code null_id = 1
kind_code uuid = 2
kind_code goog128 = 3
kind_code bigdec = 4
kind_code base64_96 = 5
kind_code hex128lc = 6
kind_code int64dec = 7
kind_code uuid_caps = 8
kind_code str = 192
kind_code compound2 = 193
kind_code unknown = 255

abbrev pub same_kind : Kind → Kind → Bool
same_kind k l = kind_code k == kind_code l
