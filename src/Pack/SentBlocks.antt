-- ===== src/Pack/SentBlocks.antt =====
-- src/pack.rs: what `worker_proc` sends for a file that it compresses in blocks.
use native.Mathlib.Nat.{div-le_self}
use rust_u4pak.Common.{
  ℕ, suc, ◌+◌, ◌-◌, ◌*◌, ◌^◌, ◌≤◌, ◌<◌, ◌≡◌, ◌∙◌, inl, inr, refl, ap, arith, Bool-cases, Option,
  some, List, [], ◌∷◌, append-nil, foldl, leb, Bytes, length,
}
use rust_u4pak.Word64.{add64, mul64}
use rust_u4pak.Io.{done, ok, ◌>>=◌}
use rust_u4pak.Crypto.{Sha1Hasher, Zlib}
use rust_u4pak.Record.{Record, CompressionBlock, compr_zlib, move_to, move_block}
use rust_u4pak.Index.Legacy.{standard}
use rust_u4pak.Pak.{header_size}
use rust_u4pak.Pack.Defs.{Work, block_loop, Blocks, compress_block}
use rust_u4pak.Pack.Worker.{
  base_header_size, block_header_size, Packed, packed_record, no_blocks, pack_blocks,
}
use rust_u4pak.Pack.Chunks.{
  chunks, flatten-chunks, length-chunks, block_count, block_loop-chunks, Gathered,
  foldl-compress_block,
}
use rust_u4pak.Unpack.Chunks.{streams, blocks_from, length-streams}
use rust_u4pak.Pack.Sent.{IsStamp, IsSent, length-map, pack_plain-Sends}

block_count_le : (n b : ℕ) → block_count n b ≤ n + 1
block_count_le n b = ground (arith, div-le_self (n - 1) b)

header_count : (n b : ℕ) → block_header_size 53 n b ≡ 57 + block_count n b * 16
header_count n b = ground arith

header_size-blocks :
    (r : Record) (offset : ℕ) (blocks : List CompressionBlock)
    → r.compression_blocks ≡ some blocks
    → length blocks < 2 ^ 50
    → header_size 3 standard (move_to 3 offset r) ≡ done (57 + length blocks * 16)
unfolding header_size move_to
header_size-blocks r offset blocks some_is few =
    rw some_is (ap done (omega (arith, length-map (move_block r.offset offset) blocks)))

module _ (sha : Sha1Hasher) (zlib : Zlib) (version base : ℕ)
    (based : base_header_size standard version ≡ done base) (old : version < 4) (work : Work)
    (content : Bytes) (fits : length content < 2 ^ 40) (timestamp : Option ℕ)
    (stamped : IsStamp version timestamp) where
  abbrev Sends : Packed → Type 0
  Sends p = IsSent sha zlib version (packed_record work (length content) timestamp p) p.out content

  -- The blocks.
  module _ (three : version ≡ 3) (level block_size : ℕ) (pos : 0 < block_size)
      (block_size_lt : block_size < 2 ^ 32) where
    base_is : base ≡ 53
    unfolding base_header_size
    base_is = ground (arith, based, three)

    abbrev parts : List Bytes
    parts = chunks (suc (length content)) block_size content

    abbrev header_of : ℕ
    header_of = block_header_size base (length content) block_size

    abbrev state_packed : Blocks sha → Packed
    state_packed st = record {
      size = st.size;
      method = compr_zlib;
      blocks = some st.blocks;
      block_size = block_size;
      sha1 = sha.finish st.hasher;
      out = st.out;
    }

    count_le : length parts ≤ length content + 1
    count_le = omega (
      arith,
      length-chunks (suc (length content)) block_size content pos (omega arith),
      block_count_le (length content) block_size,
    )

    length-blocks_from :
        (start : ℕ) (cs : List Bytes) → length (blocks_from zlib level start cs) ≡ length cs
    length-blocks_from start [] = refl
    length-blocks_from start (c ∷ cs) =
        ap suc (length-blocks_from (start + length (zlib.compress level c)) cs)

    streams_lt : length (streams zlib level parts) < 2 ^ 50
    streams_lt = omega (
      arith,
      fits,
      count_le,
      length-streams zlib level parts,
      ap length (flatten-chunks (suc (length content)) block_size content pos (omega arith)),
    )

    header_of_is : header_of ≡ 57 + length parts * 16
    header_of_is =
        rw (base_is, length-chunks (suc (length content)) block_size content pos (omega arith))
          (header_count (length content) block_size)

    -- Streams that are smaller than the file.
    state_packed-Sends :
        (st : Blocks sha)
        → Gathered sha zlib level (no_blocks sha zlib header_of) st parts
        → Sends (state_packed st)
    state_packed-Sends st gathered =
        let count : length st.blocks ≡ length parts =
          ap length gathered.blocks_is ∙ length-blocks_from header_of parts in
        record {
          header = header_of;
          body = streams zlib level parts;
          out_is = gathered.out_is;
          packed = record {
            at_start = refl;
            plain = refl;
            size_is = gathered.size_is ∙ omega arith;
            holds = inr (
                inr (
                  level,
                  parts,
                  refl,
                  ap some gathered.blocks_is,
                  refl,
                  flatten-chunks (suc (length content)) block_size content pos (omega arith),
                ));
          };
          recorded = record {
            uncompressed = refl;
            small = fits;
            plain_blocks = λ h. absurd (omega (arith, h));
            checksum = ap (λ h. some (sha.finish h)) gathered.hasher_is;
            stamped = stamped;
            early = λ h. absurd (omega (arith, h, three));
            late = λ h. (block_size_lt, λ k. cc);
          };
          hashed = sha.length-finish st.hasher;
          few = omega (arith, count, count_le, fits);
          header_is = λ offset. rw three (
              header_size-blocks (packed_record work (length content) timestamp (state_packed st))
                offset st.blocks refl (omega (arith, count, count_le, fits))
              ∙ ap done (omega (arith, header_of_is, count)));
        }

    pub pack_blocks-Sends :
        (p : Packed) × (s : Bytes) × (pack_blocks sha zlib base level block_size content content
          ≡ ok p s)
        × Sends p
    unfolding pack_blocks
    pack_blocks-Sends =
        let st = foldl (compress_block sha zlib level) (no_blocks sha zlib header_of) parts in
        let e =
          block_loop-chunks sha zlib level block_size pos (suc (length content)) (length content)
            (no_blocks sha zlib header_of) content [] refl (omega arith) in
        let loop : block_loop sha zlib level (suc (length content)) block_size (length content)
              (no_blocks sha zlib header_of) content
            ≡ ok st [] =
          rw append-nil at e in
        let gathered =
          foldl-compress_block sha zlib level (no_blocks sha zlib header_of) parts
            (omega (arith, header_of_is, streams_lt, count_le, fits)) (omega (arith, streams_lt)) in
        elim (Bool-cases (leb (length content) (add64 st.size (mul64 (length st.blocks) 16)))) [
          | inl larger ↦
              let (p, plain, sends) =
                pack_plain-Sends sha zlib version base based old work content fits timestamp stamped
                  block_size (λ h. absurd (omega (arith, h, three)), block_size_lt) in
              (p, [], rw (loop, ◌>>=◌) (rw larger plain), sends)
          | inr smaller ↦
              (state_packed st, [], rw (loop, ◌>>=◌) (rw smaller), state_packed-Sends st gathered)
        ]
