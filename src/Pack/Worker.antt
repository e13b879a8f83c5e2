-- ===== src/Pack/Worker.antt =====
-- src/pack.rs: `worker_proc`, what it does with one item of work.
use rust_u4pak.Common.{
  ℕ, suc, ◌+◌, ◌-◌, ◌*◌, ◌/◌, ◌%◌, ◌^◌, false, not, ◌||◌, Option, none, some, List, [], ◌++◌, ◌==◌,
  ltb, leb, if◌then◌else◌, Bytes, length, replicate,
}
use rust_u4pak.Word64.{add64, mul64}
use rust_u4pak.Io.{
  Error, Result, done, failed, panic, conan_version, unsupported_method, Outcome, ok, err, Reader,
  ◌>>=◌, pure, read_exact,
}
use rust_u4pak.Crypto.{Sha1Hasher, Zlib}
use rust_u4pak.Record.{
  Record, CompressionBlock, compr_none, compr_zlib, unwrap_or, v1_record_header_size,
  v2_record_header_size, v3_record_header_size, conan_exile_record_header_size,
  compression_block_header_size,
}
use rust_u4pak.Index.Legacy.{Variant, standard, conan_exiles}
use rust_u4pak.Pack.Defs.{
  PackPath, PackOptions, SourceFile, Work, Blocks, write_uncompressed, block_loop,
}

-- The size of the header without compression blocks. Other versions are a panic.
unfoldable pub base_header_size : Variant → ℕ → Result ℕ
base_header_size conan_exiles version =
    if not (version == 4)
    then failed (conan_version version)
    else done conan_exile_record_header_size
base_header_size standard version =
    if version == 1
    then done v1_record_header_size
    else if version == 2
    then done v2_record_header_size
    else if (version == 3) || (version == 4) || (version == 5) || (version == 7)
    then done v3_record_header_size
    else failed panic

-- The header of a version 3 record with its blocks, of `block_size` uncompressed bytes each.
abbrev pub block_header_size : ℕ → ℕ → ℕ → ℕ
block_header_size base uncompressed_size block_size =
    if ltb 0 uncompressed_size
    then base + 4 + (1 + (uncompressed_size - 1) / block_size) * compression_block_header_size
    else base + 4

-- The variables that the match on the compression method assigns, and `data`.
pub record Packed : Type 0 where
  pub size : ℕ
  pub method : ℕ
  pub blocks : Option (List CompressionBlock)
  pub block_size : ℕ
  pub sha1 : Bytes
  pub out : Bytes

-- `in_file.seek(SeekFrom::Start(0))`.
abbrev rewind : Bytes → Reader (Unit {0})
rewind content s = ok tt content

-- What a worker does with an item of work: it sends a record with its data, or it sends an
-- error and stops, or it stops with an error that nobody receives.
pub data Outgoing : Type 0 where
  sent : Record → Bytes → Outgoing
  refused : Error → Outgoing
  lost : Error → Outgoing

-- `Record::new` with the offset 0, which `move_to` changes.
abbrev pub packed_record : Work → ℕ → Option ℕ → Packed → Record
packed_record work uncompressed_size timestamp p = record {
  filename = work.filename;
  offset = 0;
  size = p.size;
  uncompressed_size = uncompressed_size;
  compression_method = p.method;
  timestamp = timestamp;
  sha1 = some p.sha1;
  compression_blocks = p.blocks;
  encrypted = false;
  compression_block_size = p.block_size;
}

module _ (sha : Sha1Hasher) where
  -- The file as it is. `block_size` is left from a compression that was given up.
  unfoldable pub pack_plain : ℕ → ℕ → ℕ → Reader Packed
  unfolding write_uncompressed
  pack_plain base uncompressed_size block_size = do
    written ← write_uncompressed sha base uncompressed_size
    pure (record {
      size = uncompressed_size;
      method = compr_none;
      blocks = none;
      block_size = block_size;
      sha1 = written.1;
      out = written.0;
    })

  module _ (zlib : Zlib) where
    -- Versions 1 and 2: one stream, unless it is not smaller.
    unfoldable pub pack_whole : ℕ → ℕ → Bytes → Reader Packed
    unfolding pack_plain
    pack_whole base level content = do
      buffer ← read_exact (length content)
      let out_buffer = zlib.compress level buffer
      if leb (length content) (length out_buffer)
          then (do start ← rewind content; pack_plain base (length content) 0)
          else pure (record {
            size = length out_buffer;
            method = compr_zlib;
            blocks = none;
            block_size = 0;
            sha1 = sha.finish (sha.update sha.new out_buffer);
            out = replicate base 0 ++ out_buffer;
          })

    -- `compression_block_size`, which is no larger than the file.
    abbrev pub limited_block_size : ℕ → ℕ → ℕ
    limited_block_size block_size uncompressed_size =
        if ltb uncompressed_size block_size then uncompressed_size % 2 ^ 32 else block_size

    -- The loop over the blocks starts behind a header of zeros.
    abbrev pub no_blocks : ℕ → Blocks sha
    no_blocks header_size = record {
      hasher = sha.new;
      out = replicate header_size 0;
      size = 0;
      blocks = [];
      start_offset = header_size;
    }

    -- Version 3: a stream for each block, unless that is not smaller.
    unfoldable pub pack_blocks : ℕ → ℕ → ℕ → Bytes → Reader Packed
    unfolding pack_plain block_loop
    pack_blocks base level block_size content = do
      st ←
          block_loop sha zlib level (suc (length content)) block_size (length content)
            (no_blocks (block_header_size base (length content) block_size))
      if leb (length content)
            (add64 st.size (mul64 (length st.blocks) compression_block_header_size))
          then (do start ← rewind content; pack_plain base (length content) block_size)
          else pure (record {
            size = st.size;
            method = compr_zlib;
            blocks = some st.blocks;
            block_size = block_size;
            sha1 = sha.finish st.hasher;
            out = st.out;
          })

    -- The match on the compression method, after small files have lost theirs.
    unfoldable pub pack_content : PackOptions → PackPath → ℕ → ℕ → Bytes → Reader (Result Packed)
    unfolding pack_plain pack_whole pack_blocks
    pack_content options path base method content =
        let level = unwrap_or path.compression_level options.compression_level in
        let block_size =
          limited_block_size (unwrap_or path.compression_block_size options.compression_block_size)
            (length content) in
        if (method == compr_none) || ltb (length content) options.compression_min_size
        then (do p ← pack_plain base (length content) 0; pure (done p))
        else if not (method == compr_zlib)
        then pure (failed (unsupported_method method))
        else if leb options.version 2
        then (do p ← pack_whole base level content; pure (done p))
        else (do p ← pack_blocks base level block_size content; pure (done p))

    abbrev pub outgoing : Work → ℕ → Option ℕ → Outcome Bytes (Result Packed) → Outgoing
    outgoing work n time (ok (done p) s) = sent (packed_record work n time p) p.out
    outgoing work n time (ok (failed e) s) = refused e
    outgoing work n time (err e s) = lost e

    unfoldable pub pack_file : PackOptions → Work → ℕ → SourceFile → Option ℕ → Outgoing
    unfolding pack_content
    pack_file options work base f timestamp =
        outgoing work (length f.content) timestamp
          (pack_content options work.path base work.compression_method f.content f.content)

    -- The timestamp is asked for in version 1 only.
    unfoldable pub pack_opened : PackOptions → Work → ℕ → SourceFile → Outgoing
    unfolding pack_file
    pack_opened options work base f =
        if options.version == 1
        then elim f.created [
          | failed e ↦ refused e
          | done t ↦ pack_file options work base f (some t)
        ]
        else pack_file options work base f none

    -- The body of the loop of `worker_proc`.
    unfoldable pub process_work : PackOptions → ℕ → Work → Outgoing
    unfolding pack_opened
    process_work options base work = elim work.opened [
      | failed e ↦ refused e
      | done f ↦ pack_opened options work base f
    ]
