-- ===== src/Record/Entry.antt =====
-- src/record.rs: `decode_entry`, the packed form that indices since version 10 hold.
use rust_u4pak.Common.{
  ℕ, zero, suc, ◌*◌, ◌/◌, ◌%◌, ◌^◌, Bool, not, ◌&&◌, Option, none, some, List, [], ◌∷◌, ◌==◌,
  if◌then◌else◌, ltb, leb, Bytes,
}
use rust_u4pak.Word64.{add64, align}
use rust_u4pak.Io.{panic, Reader, ◌>>=◌, pure, fail}
use rust_u4pak.Codec.{decode_u32, decode_u64}
use rust_u4pak.Record.Defs.{Record, CompressionBlock, compr_none, get_serialized_size}

-- The parts of the bitfield: `bit n` is `bitfield & (1 << n) != 0`, and the other parts are
-- shifted and masked.
abbrev pub bit : ℕ → ℕ → Bool
bit n bitfield = bitfield / 2 ^ n % 2 == 1

abbrev pub method_bits : ℕ → ℕ
method_bits bitfield = bitfield / 2 ^ 23 % 2 ^ 6

abbrev pub count_bits : ℕ → ℕ
count_bits bitfield = bitfield / 2 ^ 6 % 2 ^ 16

abbrev pub block_size_bits : ℕ → ℕ
block_size_bits bitfield = bitfield % 2 ^ 6 * 2 ^ 11

-- A number of 32 bits if the flag is set, of 64 if not.
abbrev pub decode_short : Bool → Reader ℕ
decode_short short = if short then decode_u32 else decode_u64

-- `BLOCK_SIZE` of the `aes` crate.
abbrev pub aes_block_size : ℕ
aes_block_size = 16

abbrev lift_align : Option ℕ → Reader ℕ
lift_align none = fail panic
lift_align (some n) = pure n

-- The loop over the block sizes, from the offset at which the next block starts.
unfoldable pub decode_entry_blocks : ℕ → ℕ → ℕ → Reader (List CompressionBlock)
unfolding align
decode_entry_blocks alignment zero start = pure []
decode_entry_blocks alignment (suc n) start = do
  block_size ← decode_u32
  aligned ← lift_align (align block_size alignment)
  blocks ← decode_entry_blocks alignment n (add64 start aligned)
  pure (record { start_offset = start; end_offset = add64 start block_size } ∷ blocks)

abbrev some_of : Reader (List CompressionBlock) → Reader (Option (List CompressionBlock))
some_of m = do blocks ← m; pure (some blocks)

-- The blocks of an entry, with their count, its method, its size and whether it is encrypted.
unfoldable pub entry_blocks : ℕ → ℕ → ℕ → Bool → Reader (Option (List CompressionBlock))
unfolding decode_entry_blocks get_serialized_size
entry_blocks count method size encrypted =
    let start = get_serialized_size method count in
    if not (ltb 0 count)
    then pure none
    else if (count == 1) && not encrypted
    then pure (some (record { start_offset = start; end_offset = add64 start size } ∷ []))
    else some_of (decode_entry_blocks (if encrypted then aes_block_size else 1) count start)

unfoldable pub decode_entry : Bytes → Reader Record
unfolding entry_blocks
decode_entry filename = do
  bitfield ← decode_u32
  let method = method_bits bitfield
  let encrypted = bit 22 bitfield
  let count = count_bits bitfield
  offset ← decode_short (bit 31 bitfield)
  uncompressed_size ← decode_short (bit 30 bitfield)
  size ←
      if not (method == compr_none) then decode_short (bit 29 bitfield) else pure uncompressed_size
  blocks ← entry_blocks count method size encrypted
  pure (record {
    filename = filename;
    offset = offset;
    size = size;
    uncompressed_size = uncompressed_size;
    compression_method = method;
    timestamp = none;
    sha1 = none;
    compression_blocks = blocks;
    encrypted = encrypted;
    compression_block_size =
        if ltb 0 count && leb uncompressed_size 0xFFFF
        then uncompressed_size
        else block_size_bits bitfield;
  })
