-- ===== src/Prelude/Words.antt =====
-- Machine words as bit patterns: a number below 2 ^ w, with the wrap-around written out.
use Prim.Native.Nat.{ℕ, ◌+◌, ◌-◌, ◌%◌, ◌^◌}
use mathlib.Core.Bool.{Bool, ◌&&◌}
use soa.Prelude.Tests.{ltb}

abbrev pub u16_mod : ℕ
u16_mod = 2 ^ 16

abbrev pub u32_mod : ℕ
u32_mod = 2 ^ 32

-- int32_t a + k and a - k, for a small constant k.
abbrev pub add32 : ℕ → ℕ → ℕ
add32 a k = (a + k) % u32_mod

abbrev pub sub32 : ℕ → ℕ → ℕ
sub32 a k = (a + u32_mod - k) % u32_mod

-- a < b on int32_t: adding 2 ^ 31 turns the signed order into that of the patterns.
abbrev pub ltb_i32 : ℕ → ℕ → Bool
ltb_i32 a b = ltb (add32 a (2 ^ 31)) (add32 b (2 ^ 31))

-- k < x on int16_t, for a constant k that is not negative.
abbrev pub gtb_i16 : ℕ → ℕ → Bool
gtb_i16 x k = ltb k x && ltb x (2 ^ 15)
