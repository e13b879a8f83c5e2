-- ===== src/Mount/Contents.antt =====
-- src/mount.rs: `read` and the content of a record's file.
use rust_u4pak.Common.{
  ℕ, ◌+◌, ◌*◌, ◌^◌, ◌<◌, ◌≡◌, ◌∙◌, arith, false, some, List, ◌++◌, flatten, leb, Bytes, length,
  take, drop,
}
use rust_u4pak.Word64.{add64}
use rust_u4pak.Io.{done}
use rust_u4pak.Crypto.{ZlibReader}
use rust_u4pak.Record.{Record, CompressionBlock, compr_none, compr_zlib}
use rust_u4pak.Mount.Time.{pos}
use rust_u4pak.Mount.Inode.{INode, file, U4pakFs, get, file_data, absolute_blocks}
use rust_u4pak.Mount.Handlers.{reply}
use rust_u4pak.Mount.Reading.{read, read_file}
use rust_u4pak.Mount.Slices.{read_file-plain}
use rust_u4pak.Mount.Blocks.{AreChunks, Stored}
use rust_u4pak.Mount.Aligned.{read_zlib-aligned}

-- An inode that stands for a record.
module _ (zlib : ZlibReader) (version header ino : ℕ) (fs : U4pakFs) (r : Record) (node : INode)
    (at : get fs ino ≡ some node)
    (is_file : node.contents ≡ file (file_data version header r)) where
  read-file_data :
      (offset size : ℕ)
      → read zlib fs ino (pos offset) size
        ≡ read_file zlib fs.file_bytes (file_data version header r) (pos offset) size
  unfolding read
  read-file_data offset size = rw (at, read) (rw is_file)

  -- Read gives, for a file that is neither compressed nor encrypted and whose content stands at
  -- its place in the archive, the content from any offset on, as many bytes as are asked for and
  -- there are.
  pub read-plain :
      (before content after : Bytes) (offset size : ℕ)
      → fs.file_bytes ≡ before ++ (content ++ after)
      → add64 r.offset header ≡ length before
      → r.uncompressed_size ≡ length content
      → r.compression_method ≡ compr_none
      → r.encrypted ≡ false
      → length before + length content < 2 ^ 62
      → size < 2 ^ 32
      → read zlib fs ino (pos offset) size ≡ done (reply (take size (drop offset content)))
  unfolding file_data
  read-plain before content after offset size bytes offset_is size_is method open_is fits small =
      read-file_data offset size
      ∙ (rw bytes (
          read_file-plain zlib (file_data version header r) before content after offset size open_is
            method offset_is size_is fits small))

  -- Read gives, for a file in blocks of one size, the last of which may be shorter, that hold
  -- streams of its chunks, the content from the start of any block on, as many bytes as are
  -- asked for and there are.
  pub read-blocks :
      (blocks : List CompressionBlock) (cs : List Bytes) (k wanted : ℕ)
      → absolute_blocks version r.offset r.compression_blocks ≡ some blocks
      → r.compression_method ≡ compr_zlib
      → r.encrypted ≡ false
      → r.uncompressed_size ≡ length (flatten cs)
      → AreChunks r.compression_block_size cs
      → Stored zlib fs.file_bytes blocks cs
      → 0 < r.compression_block_size
      → r.compression_block_size < 2 ^ 32
      → length (flatten cs) < 2 ^ 62
      → k * r.compression_block_size < length (flatten cs)
      → wanted < 2 ^ 32
      → read zlib fs ino (pos (k * r.compression_block_size)) wanted
        ≡ done (reply (take wanted (drop (k * r.compression_block_size) (flatten cs))))
  unfolding file_data read_file
  read-blocks blocks cs k wanted blocks_are method open_is size_is chunks stored positive small fits
        inside low =
      let inside' : leb r.uncompressed_size (k * r.compression_block_size) ≡ false =
        ground (arith, size_is) in
      read-file_data (k * r.compression_block_size) wanted
      ∙ rw open_is (
          rw inside' (
            rw method (
              rw blocks_are (
                read_zlib-aligned zlib fs.file_bytes (file_data version header r) blocks cs k chunks
                  stored positive small size_is fits inside wanted low))))
