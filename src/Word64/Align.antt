-- ===== src/Word64/Align.antt =====
-- `align` rounds up to a multiple of the alignments that the program uses.
use Prim.Native.Nat.{bit_and}
use rust_u4pak.Common.{ℕ, ◌+◌, ◌-◌, ◌*◌, ◌/◌, ◌^◌, ◌≤◌, ◌<◌, ◌≡◌, arith, some, ap}
use rust_u4pak.Word64.{align, u64_mod, add64, sub64}
use rust_u4pak.Word64.Bits.{bit_and-step, bit_and-ones}

pub bit_and-sixteen : (a : ℕ) → a < u64_mod → bit_and a (2 ^ 64 - 16) ≡ a / 16 * 16
bit_and-sixteen a h = omega (
  arith,
  bit_and-step a (2 ^ 64 - 16),
  bit_and-step (a / 2) (2 ^ 63 - 8),
  bit_and-step (a / 2 / 2) (2 ^ 62 - 4),
  bit_and-step (a / 2 / 2 / 2) (2 ^ 61 - 2),
  bit_and-ones 60 (a / 2 / 2 / 2 / 2) (omega arith),
)

-- Aligning to AES blocks gives the next multiple of 16.
pub align_sixteen : (val : ℕ) → val + 16 ≤ u64_mod → align val 16 ≡ some ((val + 15) / 16 * 16)
unfolding align
align_sixteen val h = ap some (
    let e : sub64 (add64 val 16) 1 ≡ val + 15 = omega arith in
    rw e (bit_and-sixteen (val + 15) (omega arith)))

-- An alignment of 1 changes nothing.
pub align_one : (val : ℕ) → val < u64_mod → align val 1 ≡ some val
unfolding align
align_one val h =
    ap some (let e : sub64 (add64 val 1) 1 ≡ val = omega arith in rw e (bit_and-ones 64 val h))
