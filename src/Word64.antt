-- ===== src/Word64.antt =====
-- The arithmetic of `u64`, `usize` and `u32` that the modules share, with its wrap-around, and
-- `align` of src/util.rs.
pub mod Bits
pub mod Align
use Prim.Native.Nat.{bit_and}
use rust_u4pak.Common.{ℕ, ◌+◌, ◌-◌, ◌*◌, ◌%◌, ◌^◌, Option, none, some, ◌==◌, if◌then◌else◌}

abbrev pub u64_mod : ℕ
u64_mod = 2 ^ 64

abbrev pub u32_mod : ℕ
u32_mod = 2 ^ 32

-- `+`, `-` and `*` on `u64`, as a release build computes them.
abbrev pub add64 : ℕ → ℕ → ℕ
add64 a b = (a + b) % u64_mod

abbrev pub sub64 : ℕ → ℕ → ℕ
sub64 a b = (a + u64_mod - b) % u64_mod

abbrev pub mul64 : ℕ → ℕ → ℕ
mul64 a b = (a * b) % u64_mod

-- `!a`.
abbrev pub not64 : ℕ → ℕ
not64 a = u64_mod - 1 - a

-- `align`; `none` is the failed assertion that the alignment is a power of 2.
unfoldable pub align : ℕ → ℕ → Option ℕ
align val alignment =
    if bit_and alignment (sub64 alignment 1) == 0
    then some (bit_and (sub64 (add64 val alignment) 1) (not64 (sub64 alignment 1)))
    else none
