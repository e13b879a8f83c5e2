-- ===== src/Record/Inline.antt =====
-- src/record.rs: the headers in front of the data. They hold offset 0 and otherwise the same
-- record, which is what `check` compares by `same_metadata`.
use rust_u4pak.Common.{
  ℕ, ◌≡◌, ◌∙◌, refl, arith, Bool, true, false, Option, none, some, List, [], ◌∷◌, ◌++◌, Bytes,
  bytes_eq_refl, bytes_eq, ==_refl, ◌==◌,
}
use rust_u4pak.Io.{ok}
use rust_u4pak.Record.Defs.{Record, CompressionBlock, same_metadata, option_eq, bool_eq, blocks_eq}
use rust_u4pak.Record.Read.{read_v1, read_v2, read_v3}
use rust_u4pak.Record.Write.{write_v1_inline, write_v2_inline, write_v3_inline}
use rust_u4pak.Record.Fields.{read_v1-v1_fields, read_v2-v2_fields, read_v3-v3_fields}
use rust_u4pak.Record.RoundTrip.{IsV1, IsV2, IsV3}

blocks_eq_refl : (bs : List CompressionBlock) → blocks_eq bs bs ≡ true
unfolding blocks_eq
blocks_eq_refl [] = refl
blocks_eq_refl (b ∷ bs) = ground (arith, blocks_eq_refl bs)

bytes_option_refl : (o : Option Bytes) → option_eq bytes_eq o o ≡ true
bytes_option_refl none = refl
bytes_option_refl (some b) = bytes_eq_refl b

blocks_option_refl : (o : Option (List CompressionBlock)) → option_eq blocks_eq o o ≡ true
blocks_option_refl none = refl
blocks_option_refl (some b) = blocks_eq_refl b

nat_option_refl : (o : Option ℕ) → option_eq ◌==◌ o o ≡ true
nat_option_refl none = refl
nat_option_refl (some n) = ==_refl n

bool_eq_refl : (b : Bool) → bool_eq b b ≡ true
bool_eq_refl true = refl
bool_eq_refl false = refl

-- Records that differ in their offset alone have the same metadata.
pub same_metadata_of_offset :
    (r : Record) (offset : ℕ) → same_metadata r (record r { offset = offset }) ≡ true
unfolding same_metadata
same_metadata_of_offset r offset = rw (
  ==_refl r.size,
  ==_refl r.uncompressed_size,
  ==_refl r.compression_method,
  nat_option_refl r.timestamp,
  bytes_option_refl r.sha1,
  blocks_option_refl r.compression_blocks,
  bool_eq_refl r.encrypted,
  ==_refl r.compression_block_size,
)

-- The record that an inline header stands for.
abbrev pub at_zero : Record → Record
at_zero r = record r { offset = 0 }

module _ (r : Record) (s : Bytes) {hash : Bytes} where
  -- The inline header of a version 1 record is read as the record at offset 0.
  pub read_v1-write_v1_inline :
      {time : ℕ} → IsV1 r hash time → read_v1 r.filename (write_v1_inline r ++ s) ≡ ok (at_zero r) s
  unfolding write_v1_inline
  read_v1-write_v1_inline {time} h =
      read_v1-v1_fields r hash s 0 (omega arith) h.head time h.time_lt h.time_is
      ∙ ground (arith, h.head.sha1_is)

  pub read_v2-write_v2_inline :
      IsV2 r hash → read_v2 r.filename (write_v2_inline r ++ s) ≡ ok (at_zero r) s
  unfolding write_v2_inline
  read_v2-write_v2_inline h =
      read_v2-v2_fields r hash s 0 (omega arith) h.head ∙ ground (arith, h.head.sha1_is)

  pub read_v3-write_v3_inline :
      IsV3 r hash → read_v3 r.filename (write_v3_inline r ++ s) ≡ ok (at_zero r) s
  unfolding write_v3_inline
  read_v3-write_v3_inline h =
      read_v3-v3_fields r hash s 0 (omega arith) h.head h.tail ∙ ground (arith, h.head.sha1_is)
