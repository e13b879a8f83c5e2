-- ===== src/Pak/Sizes.antt =====
-- src/pak.rs: `header_size` is the length of the inline headers that src/record.rs writes.
use rust_u4pak.Common.{
  ℕ, ◌+◌, ◌*◌, ◌%◌, ◌^◌, ◌<◌, ◌≡◌, refl, ap, arith, Option, none, some, List, [], ◌∷◌, ◌++◌, Bytes,
  length, length-append,
}
use rust_u4pak.Io.{done}
use rust_u4pak.Codec.{
  encode_u8, encode_u32, encode_u64, encode_counted, encode_items, length-to_le_bytes,
}
use rust_u4pak.Record.{Record, unwrap_or, CompressionBlock}
use rust_u4pak.Record.Write.{
  encode_block, encode_blocks, bool_u8, head_fields, sha1_field, write_v1_inline, write_v2_inline,
  write_v3_inline,
}
use rust_u4pak.Index.Legacy.{standard}
use rust_u4pak.Pak.Defs.{header_size, blocks_size}

length-encode_items :
    (bs : List CompressionBlock) → length (encode_items encode_block bs) ≡ 16 * length bs
unfolding encode_items encode_block
length-encode_items [] = refl
length-encode_items (b ∷ bs) = omega (
  arith,
  length-append (encode_block b) (encode_items encode_block bs),
  length-append (encode_u64 b.start_offset) (encode_u64 b.end_offset),
  length-to_le_bytes 8 b.start_offset,
  length-to_le_bytes 8 b.end_offset,
  length-encode_items bs,
)

-- The bytes of the optional blocks.
abbrev pub blocks_length : Option (List CompressionBlock) → ℕ
blocks_length none = 0
blocks_length (some bs) = 4 + 16 * length bs

pub length-encode_blocks :
    (o : Option (List CompressionBlock)) → length (encode_blocks o) ≡ blocks_length o
unfolding encode_blocks encode_counted
length-encode_blocks none = refl
length-encode_blocks (some bs) = omega (
  arith,
  length-append (encode_u32 (length bs % 2 ^ 32)) (encode_items encode_block bs),
  length-to_le_bytes 4 (length bs % 2 ^ 32),
  length-encode_items bs,
)

length-head_fields :
    (offset : ℕ) (r : Record) (tail : Bytes) → length (head_fields offset r tail) ≡ 28 + length tail
length-head_fields offset r tail = omega (
  arith,
  length-append (encode_u64 offset) (
      encode_u64 r.size
      ++ (encode_u64 r.uncompressed_size ++ (encode_u32 r.compression_method ++ tail))),
  length-append (encode_u64 r.size)
      (encode_u64 r.uncompressed_size ++ (encode_u32 r.compression_method ++ tail)),
  length-append (encode_u64 r.uncompressed_size) (encode_u32 r.compression_method ++ tail),
  length-append (encode_u32 r.compression_method) tail,
  length-to_le_bytes 8 offset,
  length-to_le_bytes 8 r.size,
  length-to_le_bytes 8 r.uncompressed_size,
  length-to_le_bytes 4 r.compression_method,
)

blocks_size_three :
    (o : Option (List CompressionBlock))
    → blocks_length o < 2 ^ 63
    → done (blocks_size 3 o) ≡ done (53 + blocks_length o)
blocks_size_three none few = refl
blocks_size_three (some bs) few = ap done (omega arith)

module _ (r : Record) (hashed : length (sha1_field r) ≡ 20) where
  pub length-write_v1_inline : length (write_v1_inline r) ≡ 56
  unfolding write_v1_inline
  length-write_v1_inline = omega (
    arith,
    length-head_fields 0 r (encode_u64 (unwrap_or r.timestamp 0) ++ sha1_field r),
    length-append (encode_u64 (unwrap_or r.timestamp 0)) (sha1_field r),
    length-to_le_bytes 8 (unwrap_or r.timestamp 0),
    hashed,
  )

  pub length-write_v2_inline : length (write_v2_inline r) ≡ 48
  unfolding write_v2_inline
  length-write_v2_inline = omega (arith, length-head_fields 0 r (sha1_field r), hashed)

  pub length-write_v3_inline : length (write_v3_inline r) ≡ 53 + blocks_length r.compression_blocks
  unfolding write_v3_inline
  length-write_v3_inline =
      let last = encode_u32 r.compression_block_size ++ [] in
      let flag = encode_u8 (bool_u8 r.encrypted) ++ last in
      omega (
        arith,
        length-head_fields 0 r (sha1_field r ++ (encode_blocks r.compression_blocks ++ flag)),
        length-append (sha1_field r) (encode_blocks r.compression_blocks ++ flag),
        length-append (encode_blocks r.compression_blocks) flag,
        length-append (encode_u8 (bool_u8 r.encrypted)) last,
        length-append (encode_u32 r.compression_block_size) [],
        length-to_le_bytes 1 (bool_u8 r.encrypted),
        length-to_le_bytes 4 r.compression_block_size,
        length-encode_blocks r.compression_blocks,
        hashed,
      )

  -- Of a record with a checksum of 20 bytes and fewer than 2 ^ 63 bytes of compression blocks, the inline header that
  -- is written for version 1, 2 or 3 has the length that `header_size` gives.
  pub header_size-write_inline :
      blocks_length r.compression_blocks < 2 ^ 63
      → (header_size 1 standard r ≡ done (length (write_v1_inline r)))
        × (header_size 2 standard r ≡ done (length (write_v2_inline r)))
        × (header_size 3 standard r ≡ done (length (write_v3_inline r)))
  unfolding header_size
  header_size-write_inline few = (
    rw length-write_v1_inline,
    rw length-write_v2_inline,
    rw length-write_v3_inline (blocks_size_three r.compression_blocks few),
  )
