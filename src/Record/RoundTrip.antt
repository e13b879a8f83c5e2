-- ===== src/Record/RoundTrip.antt =====
-- src/record.rs: what a writer puts into the index, the reader of the same layout reads back.
use rust_u4pak.Common.{ℕ, ◌^◌, ◌<◌, ◌≡◌, ◌∙◌, arith, false, none, some, ◌++◌, Bytes}
use rust_u4pak.Io.{ok}
use rust_u4pak.Record.Defs.{Record}
use rust_u4pak.Record.Read.{read_v1, read_v2, read_v3, read_conan_exiles}
use rust_u4pak.Record.Write.{write_v1, write_v2, write_v3, write_conan_exiles}
use rust_u4pak.Record.Fields.{
  IsHead, IsTail, read_v1-v1_fields, read_v2-v2_fields, read_v3-v3_fields,
  read_conan_exiles-v3_fields,
}

-- What each layout can hold; `hash` is the checksum of the record.
pub record IsV1 (r : Record) (hash : Bytes) (time : ℕ) : Type 0 where
  pub head : IsHead r hash
  pub offset_lt : r.offset < 2 ^ 64
  pub time_lt : time < 2 ^ 64
  pub time_is : r.timestamp ≡ some time
  pub blocks_none : r.compression_blocks ≡ none
  pub plain : r.encrypted ≡ false
  pub block_size_zero : r.compression_block_size ≡ 0

pub record IsV2 (r : Record) (hash : Bytes) : Type 0 where
  pub head : IsHead r hash
  pub offset_lt : r.offset < 2 ^ 64
  pub no_timestamp : r.timestamp ≡ none
  pub blocks_none : r.compression_blocks ≡ none
  pub plain : r.encrypted ≡ false
  pub block_size_zero : r.compression_block_size ≡ 0

pub record IsV3 (r : Record) (hash : Bytes) : Type 0 where
  pub head : IsHead r hash
  pub offset_lt : r.offset < 2 ^ 64
  pub tail : IsTail r

module _ (r : Record) (s : Bytes) {hash : Bytes} where
  -- A version 1 record in the range of its fields is read back from the index as it was written.
  pub read_v1-write_v1 :
      {time : ℕ} → IsV1 r hash time → read_v1 r.filename (write_v1 r ++ s) ≡ ok r s
  unfolding write_v1
  read_v1-write_v1 {time} h =
      read_v1-v1_fields r hash s r.offset h.offset_lt h.head time h.time_lt h.time_is
      ∙ ground (arith, h.head.sha1_is)

  pub read_v2-write_v2 : IsV2 r hash → read_v2 r.filename (write_v2 r ++ s) ≡ ok r s
  unfolding write_v2
  read_v2-write_v2 h =
      read_v2-v2_fields r hash s r.offset h.offset_lt h.head ∙ ground (arith, h.head.sha1_is)

  pub read_v3-write_v3 : IsV3 r hash → read_v3 r.filename (write_v3 r ++ s) ≡ ok r s
  unfolding write_v3
  read_v3-write_v3 h =
      read_v3-v3_fields r hash s r.offset h.offset_lt h.head h.tail ∙ ground (arith, h.head.sha1_is)

  -- The index form of a Conan Exiles record.
  pub read_conan_exiles-write_conan_exiles :
      IsV3 r hash → read_conan_exiles r.filename (write_conan_exiles r ++ s) ≡ ok r s
  unfolding write_conan_exiles
  read_conan_exiles-write_conan_exiles h =
      read_conan_exiles-v3_fields r hash s r.offset h.offset_lt h.head h.tail
      ∙ ground (arith, h.head.sha1_is)
