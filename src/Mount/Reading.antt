-- ===== src/Mount/Reading.antt =====
-- src/mount.rs: the handler `read`. What panics is a failure, what is sent is a reply.
use rust_u4pak.Common.{
  ℕ, ◌+◌, ◌-◌, ◌/◌, ◌%◌, ◌^◌, Option, none, some, List, [], ◌∷◌, ◌++◌, ltb, leb, ◌==◌,
  if◌then◌else◌, Bytes, length, take, drop, ◌||◌,
}
use rust_u4pak.Word64.{add64, sub64, mul64}
use rust_u4pak.Io.{Result, done, failed, panic}
use rust_u4pak.Crypto.{ZlibReader}
use rust_u4pak.Record.{CompressionBlock, compr_none, compr_zlib}
use rust_u4pak.Mount.Time.{ℤ, pos, negsuc}
use rust_u4pak.Mount.Inode.{FileData, file, dir, U4pakFs, get}
use rust_u4pak.Mount.Handlers.{enoent, eisdir, einval, eio, enosys, Reply, reply, error}

abbrev pub min : ℕ → ℕ → ℕ
min a b = if leb a b then a else b

-- `Result<_, Error>` of the handler, whose failures are panics: a chain that an error reply ends.
infixl 5 ◌>>=◌
abbrev pub ◌>>=◌ {ℓ κ} :
    {A : Type ℓ} {B : Type κ} → Result (Reply A) → (A → Result (Reply B)) → Result (Reply B)
failed e >>= f = failed e
done (error e) >>= f = done (error e)
done (reply a) >>= f = f a

-- A buffer of `n` bytes that `read_exact_at` fills. There is none of more than `isize::MAX` bytes,
-- and no offset of a file that is negative as an `i64`; for no bytes the file is not asked. A file that ends has no error number.
unfoldable pub read_exact_at : Bytes → ℕ → ℕ → Result (Reply Bytes)
read_exact_at bytes size offset =
    if leb (2 ^ 63) size
    then failed panic
    else if size == 0
    then done (reply [])
    else if leb (2 ^ 63) offset
    then done (error einval)
    else if ltb (length (drop offset bytes)) size
    then done (error eio)
    else done (reply (take size (drop offset bytes)))

-- `raw_os_error().unwrap_or(EIO)` of an error of the decoder.
abbrev pub decoded : Option Bytes → Result (Reply Bytes)
decoded none = done (error eio)
decoded (some b) = done (reply b)

-- The file, not compressed.
unfoldable pub read_plain : Bytes → FileData → ℕ → ℕ → Result (Reply Bytes)
unfolding read_exact_at
read_plain bytes f offset size =
    let read_offset = add64 f.offset offset in
    let end_offset = min (add64 f.offset f.uncompressed_size) (add64 read_offset size) in
    read_exact_at bytes (sub64 end_offset read_offset) read_offset

-- `end_block_index`.
abbrev pub end_block : ℕ → ℕ → ℕ
end_block end_offset block_size =
    if end_offset % block_size == 0 then end_offset / block_size else end_offset / block_size + 1

module _ (zlib : ZlibReader) where
  -- The body of the loop over the blocks, with what is in `out_buffer`. The first branch reads into
  -- the whole of it.
  unfoldable pub read_block :
      Bytes → ℕ → ℕ → ℕ → ℕ → CompressionBlock → Bytes → Result (Reply Bytes)
  unfolding read_exact_at
  read_block bytes block_size read_offset end_offset current_offset b out_buffer =
      read_exact_at bytes (sub64 b.end_offset b.start_offset) b.start_offset >>= λ in_buffer.
      if ltb current_offset read_offset
      then (decoded (zlib.read_exact (min block_size end_offset) in_buffer) >>= λ out.
          if ltb (length out) read_offset
          then failed panic
          else done (reply (drop read_offset out)))
      else if ltb end_offset (add64 current_offset block_size)
      then (decoded (zlib.read_exact (sub64 end_offset current_offset) in_buffer) >>= λ out.
          done (reply (out_buffer ++ out)))
      else decoded (zlib.zlib.decompress in_buffer) >>= λ out. done (reply (out_buffer ++ out))

  unfoldable pub read_blocks :
      Bytes → ℕ → ℕ → ℕ → ℕ → List CompressionBlock → Bytes → Result (Reply Bytes)
  unfolding read_block
  read_blocks bytes block_size read_offset end_offset current_offset [] out_buffer =
      done (reply out_buffer)
  read_blocks bytes block_size read_offset end_offset current_offset (b ∷ blocks) out_buffer =
      let rest =
        read_blocks bytes block_size read_offset end_offset (add64 current_offset block_size)
          blocks in
      read_block bytes block_size read_offset end_offset current_offset b out_buffer >>= rest

  -- The file in blocks; `&blocks[start..end]` panics out of range, and so does a block size of 0.
  unfoldable pub read_zlib : Bytes → FileData → List CompressionBlock → ℕ → ℕ → Result (Reply Bytes)
  unfolding read_blocks
  read_zlib bytes f blocks read_offset read_size =
      let block_size = f.compression_block_size in
      let end_offset = min (add64 read_offset read_size) f.uncompressed_size in
      let start = read_offset / block_size in
      let end_index = end_block end_offset block_size in
      if block_size == 0
      then failed panic
      else if ltb end_index start || ltb (length blocks) end_index
      then failed panic
      else read_blocks bytes block_size read_offset end_offset (mul64 block_size start)
          (take (end_index - start) (drop start blocks)) []

  -- The file as one stream, of version 2.
  unfoldable pub read_whole : Bytes → FileData → ℕ → Result (Reply Bytes)
  unfolding read_exact_at
  read_whole bytes f read_size = do
    in_buffer ← read_exact_at bytes f.size f.offset
    out ← decoded (zlib.zlib.decompress in_buffer)
    done (reply (if ltb read_size (length out) then take read_size out else out))

  unfoldable pub read_file : Bytes → FileData → ℤ → ℕ → Result (Reply Bytes)
  unfolding read_plain read_zlib read_whole
  read_file bytes f (negsuc n) read_size = done (error (if f.encrypted then enosys else einval))
  read_file bytes f (pos read_offset) read_size =
      if f.encrypted
      then done (error enosys)
      else if leb f.uncompressed_size read_offset
      then done (reply [])
      else if f.compression_method == compr_none
      then read_plain bytes f read_offset read_size
      else if f.compression_method == compr_zlib
      then elim f.compression_blocks [
        | some blocks ↦ read_zlib bytes f blocks read_offset read_size
        | none ↦ read_whole bytes f read_size
      ]
      else done (error enosys)

  unfoldable pub read : U4pakFs → ℕ → ℤ → ℕ → Result (Reply Bytes)
  unfolding read_file
  read fs ino read_offset read_size = elim (get fs ino) [
    | none ↦ done (error enoent)
    | some node ↦ elim node.contents [
      | file f ↦ read_file fs.file_bytes f read_offset read_size
      | dir children ↦ done (error eisdir)
    ]
  ]
