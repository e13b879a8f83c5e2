-- ===== src/Info/Steps.antt =====
-- src/info.rs: one round of the loop.
use rust_u4pak.Common.{
  ℕ, ◌+◌, ◌≡◌, refl, arith, Bool, true, false, Bool-cases, inl, inr, ◌==◌, if◌then◌else◌,
}
use rust_u4pak.Word64.{add64}
use rust_u4pak.Record.{Record, compr_none, compr_zlib, compr_bias_memory, compr_bias_speed}
use rust_u4pak.Info.{Sums, add_all, add_encrypted, add_method}
use rust_u4pak.Info.Columns.{has_method, is_other, is_encrypted, size_of, uncompressed_of}

-- The body of the loop, variable by variable.
abbrev pub step : Record → Sums → Sums
step r s = record {
  sum_size = add64 s.sum_size (size_of r);
  sum_uncompressed_size = add64 s.sum_uncompressed_size (uncompressed_of r);
  uncompr_count = if has_method compr_none r then s.uncompr_count + 1 else s.uncompr_count;
  zlib_count = if has_method compr_zlib r then s.zlib_count + 1 else s.zlib_count;
  bias_speed_count =
      if has_method compr_bias_speed r then s.bias_speed_count + 1 else s.bias_speed_count;
  bias_memory_count =
      if has_method compr_bias_memory r then s.bias_memory_count + 1 else s.bias_memory_count;
  other_count = if is_other r then s.other_count + 1 else s.other_count;
  encrypted_count = if is_encrypted r then s.encrypted_count + 1 else s.encrypted_count;
  sum_uncompr_size =
      if has_method compr_none r then add64 s.sum_uncompr_size (size_of r) else s.sum_uncompr_size;
  sum_zlib_size =
      if has_method compr_zlib r then add64 s.sum_zlib_size (size_of r) else s.sum_zlib_size;
  sum_bias_speed_size =
      if has_method compr_bias_speed r
      then add64 s.sum_bias_speed_size (size_of r)
      else s.sum_bias_speed_size;
  sum_bias_memory_size =
      if has_method compr_bias_memory r
      then add64 s.sum_bias_memory_size (size_of r)
      else s.sum_bias_memory_size;
  sum_unknown_size =
      if is_other r then add64 s.sum_unknown_size (size_of r) else s.sum_unknown_size;
  sum_encrypted_size =
      if is_encrypted r then add64 s.sum_encrypted_size (size_of r) else s.sum_encrypted_size;
  sum_uncompr_zlib_size =
      if has_method compr_zlib r
      then add64 s.sum_uncompr_zlib_size (uncompressed_of r)
      else s.sum_uncompr_zlib_size;
  sum_uncompr_bias_speed_size =
      if has_method compr_bias_speed r
      then add64 s.sum_uncompr_bias_speed_size (uncompressed_of r)
      else s.sum_uncompr_bias_speed_size;
  sum_uncompr_bias_memory_size =
      if has_method compr_bias_memory r
      then add64 s.sum_uncompr_bias_memory_size (uncompressed_of r)
      else s.sum_uncompr_bias_memory_size;
  sum_uncompr_unknown_size =
      if is_other r
      then add64 s.sum_uncompr_unknown_size (uncompressed_of r)
      else s.sum_uncompr_unknown_size;
  sum_uncompr_encrypted_size =
      if is_encrypted r
      then add64 s.sum_uncompr_encrypted_size (uncompressed_of r)
      else s.sum_uncompr_encrypted_size;
}

-- The row of the table that a method counts for, by the tests of the match, in its order.
data Kind : Type 0 where
  is_plain is_zlib is_speed is_memory is_unknown : Kind

abbrev Tested : Bool → Bool → Bool → Bool → ℕ → Type 0
Tested plain zlib speed memory m =
    ((m == compr_none) ≡ plain)
    × ((m == compr_zlib) ≡ zlib)
    × ((m == compr_bias_speed) ≡ speed)
    × ((m == compr_bias_memory) ≡ memory)

abbrev Tests : Kind → ℕ → Type 0
Tests is_plain = Tested true false false false
Tests is_zlib = Tested false true false false
Tests is_speed = Tested false false true false
Tests is_memory = Tested false false false true
Tests is_unknown = Tested false false false false

kind_of : (m : ℕ) → (k : Kind) × Tests k m
kind_of m = elim (Bool-cases (m == compr_none)) [
  | inl e ↦ (is_plain, (e, ground arith, ground arith, ground arith))
  | inr e ↦ elim (Bool-cases (m == compr_zlib)) [
    | inl e1 ↦ (is_zlib, (e, e1, ground arith, ground arith))
    | inr e1 ↦ elim (Bool-cases (m == compr_bias_speed)) [
      | inl e2 ↦ (is_speed, (e, e1, e2, ground arith))
      | inr e2 ↦ elim (Bool-cases (m == compr_bias_memory)) [
        | inl e3 ↦ (is_memory, (e, e1, e2, e3))
        | inr e3 ↦ (is_unknown, (e, e1, e2, e3))
      ]
    ]
  ]
]

add-step_as :
    (encrypted : Bool) (k : Kind) (r : Record) (s : Sums)
    → r.encrypted ≡ encrypted
    → Tests k r.compression_method
    → add_method r (add_encrypted r (add_all r s)) ≡ step r s
unfolding add_method add_encrypted add_all
add-step_as true is_plain r s e t = rw (e, t.0, t.1, t.2, t.3) refl
add-step_as true is_zlib r s e t = rw (e, t.0, t.1, t.2, t.3) refl
add-step_as true is_speed r s e t = rw (e, t.0, t.1, t.2, t.3) refl
add-step_as true is_memory r s e t = rw (e, t.0, t.1, t.2, t.3) refl
add-step_as true is_unknown r s e t = rw (e, t.0, t.1, t.2, t.3) refl
add-step_as false is_plain r s e t = rw (e, t.0, t.1, t.2, t.3) refl
add-step_as false is_zlib r s e t = rw (e, t.0, t.1, t.2, t.3) refl
add-step_as false is_speed r s e t = rw (e, t.0, t.1, t.2, t.3) refl
add-step_as false is_memory r s e t = rw (e, t.0, t.1, t.2, t.3) refl
add-step_as false is_unknown r s e t = rw (e, t.0, t.1, t.2, t.3) refl

pub add-step : (r : Record) (s : Sums) → add_method r (add_encrypted r (add_all r s)) ≡ step r s
add-step r s =
    let (k, tests) = kind_of r.compression_method in add-step_as r.encrypted k r s refl tests
