-- ===== src/Pack/Defs.antt =====
-- src/pack.rs: the options, the work items, and the loops that copy and compress a file. A file is
-- its content; `read_exact` on it consumes a list of bytes.
use rust_u4pak.Common.{
  ℕ, zero, suc, ◌-◌, ◌*◌, Option, List, [], ◌∷◌, ◌++◌, ltb, leb, if◌then◌else◌, Bytes, length,
  replicate,
}
use rust_u4pak.Word64.{add64}
use rust_u4pak.Io.{Result, panic, Reader, ◌>>=◌, pure, fail, read_exact}
use rust_u4pak.Crypto.{Sha1Hasher, Zlib}
use rust_u4pak.Text.{Text}
use rust_u4pak.Paths.{Encoding}
use rust_u4pak.Record.{CompressionBlock}
use rust_u4pak.Index.Legacy.{Variant}

-- `BUFFER_SIZE` of src/pak.rs.
abbrev pub buffer_size : ℕ
buffer_size = 2 * 1024 * 1024

-- `COMPR_DEFAULT`.
abbrev pub compr_default : ℕ
compr_default = 0xFFFF_FFFF

pub record PackPath : Type 0 where
  pub compression_method : ℕ
  pub compression_block_size : Option ℕ
  pub compression_level : Option ℕ
  pub filename : Text
  pub rename : Option Text

pub record PackOptions : Type 0 where
  pub variant : Variant
  pub version : ℕ
  pub mount_point : Option Text
  pub compression_method : ℕ
  pub compression_block_size : ℕ
  pub compression_min_size : ℕ
  pub compression_level : ℕ
  pub encoding : Encoding

-- What opening a file gives: its content, and the seconds since 1970 at which it was created.
pub record SourceFile : Type 0 where
  pub content : Bytes
  pub created : Result ℕ

pub record Work : Type 0 where
  pub filename : Text
  pub opened : Result SourceFile
  pub path : PackPath
  pub compression_method : ℕ

module _ (sha : Sha1Hasher) where
  open sha use {State, update}

  -- The loop of `write_uncompressed`: the hash and the data so far. Fuel is spent per buffer.
  unfoldable pub copy_loop : ℕ → ℕ → State → Bytes → Reader (State × Bytes)
  copy_loop zero remaining h out = fail panic
  copy_loop (suc fuel) remaining h out =
      if leb buffer_size remaining
      then (do
        buffer ← read_exact buffer_size
        copy_loop fuel (remaining - buffer_size) (update h buffer) (out ++ buffer))
      else if ltb 0 remaining
      then (do buffer ← read_exact remaining; pure (update h buffer, out ++ buffer))
      else pure (h, out)

  -- `write_uncompressed`: the data behind a header of zeros, and its checksum.
  unfoldable pub write_uncompressed : ℕ → ℕ → Reader (Bytes × Bytes)
  unfolding copy_loop
  write_uncompressed base_header_size uncompressed_size = do
    copied ←
        copy_loop (suc uncompressed_size) uncompressed_size sha.new (replicate base_header_size 0)
    pure (copied.1, sha.finish copied.0)

  -- What the loop over the compression blocks carries.
  pub record Blocks : Type 0 where
    pub hasher : State
    pub out : Bytes
    pub size : ℕ
    pub blocks : List CompressionBlock
    pub start_offset : ℕ

  module _ (zlib : Zlib) (level : ℕ) where
    -- The body of the loop, behind `read_exact`.
    abbrev pub compress_block : Blocks → Bytes → Blocks
    compress_block st buffer =
        let out_buffer = zlib.compress level buffer in
        let end = add64 st.start_offset (length out_buffer) in
        record {
          hasher = update st.hasher out_buffer;
          out = st.out ++ out_buffer;
          size = add64 st.size (length out_buffer);
          blocks = st.blocks ++ record { start_offset = st.start_offset; end_offset = end } ∷ [];
          start_offset = end;
        }

    -- The loop, and the last block, which may be shorter. Fuel is spent per block.
    unfoldable pub block_loop : ℕ → ℕ → ℕ → Blocks → Reader Blocks
    block_loop zero block_size remaining st = fail panic
    block_loop (suc fuel) block_size remaining st =
        if leb block_size remaining
        then (do
          buffer ← read_exact block_size
          block_loop fuel block_size (remaining - block_size) (compress_block st buffer))
        else if ltb 0 remaining
        then (do buffer ← read_exact remaining; pure (compress_block st buffer))
        else pure st
