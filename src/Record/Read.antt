-- ===== src/Record/Read.antt =====
-- src/record.rs: `read_v1`, `read_v2`, `read_v3` and `read_conan_exiles`.
use rust_u4pak.Common.{ℕ, not, Option, none, some, List, Bytes, ◌==◌, if◌then◌else◌}
use rust_u4pak.Io.{Reader, ◌>>=◌, pure}
use rust_u4pak.Codec.{decode_u8, decode_u32, decode_u64, decode_array, decode_counted}
use rust_u4pak.Record.Defs.{Record, CompressionBlock, compr_none, v1, v2, v3}

-- `Decode` for `CompressionBlock`.
unfoldable pub decode_block : Reader CompressionBlock
decode_block = do
  start ← decode_u64
  end ← decode_u64
  pure (record { start_offset = start; end_offset = end })

unfoldable pub read_v1 : Bytes → Reader Record
read_v1 filename = do
  offset ← decode_u64
  size ← decode_u64
  uncompressed_size ← decode_u64
  compression_method ← decode_u32
  timestamp ← decode_u64
  sha1 ← decode_array 20
  pure (v1 filename offset size uncompressed_size compression_method timestamp (some sha1))

unfoldable pub read_v2 : Bytes → Reader Record
read_v2 filename = do
  offset ← decode_u64
  size ← decode_u64
  uncompressed_size ← decode_u64
  compression_method ← decode_u32
  sha1 ← decode_array 20
  pure (v2 filename offset size uncompressed_size compression_method (some sha1))

abbrev some_blocks : Reader (Option (List CompressionBlock))
some_blocks = do blocks ← decode_counted decode_block; pure (some blocks)

-- `if compression_method != COMPR_NONE { compression_blocks: CompressionBlock [u32] }`.
unfoldable pub decode_blocks : ℕ → Reader (Option (List CompressionBlock))
decode_blocks method = if not (method == compr_none) then some_blocks else pure none

unfoldable pub read_v3 : Bytes → Reader Record
read_v3 filename = do
  offset ← decode_u64
  size ← decode_u64
  uncompressed_size ← decode_u64
  compression_method ← decode_u32
  sha1 ← decode_array 20
  compression_blocks ← decode_blocks compression_method
  encrypted ← decode_u8
  compression_block_size ← decode_u32
  pure (
      v3 filename offset size uncompressed_size compression_method (some sha1) compression_blocks
        (not (encrypted == 0)) compression_block_size)

-- The last field is only reported if it is not 0.
unfoldable pub read_conan_exiles : Bytes → Reader Record
read_conan_exiles filename = do
  offset ← decode_u64
  size ← decode_u64
  uncompressed_size ← decode_u64
  compression_method ← decode_u32
  sha1 ← decode_array 20
  compression_blocks ← decode_blocks compression_method
  encrypted ← decode_u8
  compression_block_size ← decode_u32
  unknown ← decode_u32
  pure (
      v3 filename offset size uncompressed_size compression_method (some sha1) compression_blocks
        (not (encrypted == 0)) compression_block_size)
