-- ===== src/Check/Records.antt =====
-- src/check.rs: the loop over the blocks, on the streams of some chunks.
use rust_u4pak.Common.{
  ℕ, ◌+◌, ◌-◌, ◌^◌, ◌<◌, ◌≡◌, ◌∙◌, refl, sym, arith, Bool, true, false, List, [], ◌∷◌, ◌++◌,
  append_assoc, map, ltb, ◌==◌, Bytes, length, length-append,
}
use rust_u4pak.Word64.{add64}
use rust_u4pak.Io.{done}
use rust_u4pak.Crypto.{Sha1Hasher, Zlib}
use rust_u4pak.Record.{CompressionBlock, move_block}
use rust_u4pak.Unpack.{read_at}
use rust_u4pak.Unpack.Chunks.{streams, blocks_from}
use rust_u4pak.Unpack.Records.{read_at-append}
use rust_u4pak.Check.Defs.{nothing, check_blocks}

module _ (sha : Sha1Hasher) (abort ignore : Bool) where
  -- A block that begins where it should.
  check_blocks-next :
      (file : Bytes) (b : CompressionBlock) (blocks : List CompressionBlock) (start next : ℕ)
      (h : sha.State) (buffer : Bytes)
      → b.start_offset ≡ start
      → start + length buffer ≡ next
      → b.end_offset ≡ next
      → next < 2 ^ 63
      → read_at file start (length buffer) ≡ done buffer
      → check_blocks sha abort ignore file 0 (b ∷ blocks) start h
        ≡ check_blocks sha abort ignore file 0 blocks next (sha.update h buffer)
  unfolding check_blocks
  check_blocks-next file b blocks start next h buffer from size to fits read =
      let ordered : ltb b.end_offset b.start_offset ≡ false = ground (arith, from, to) in
      let expected : (start == b.start_offset) ≡ true = ground (arith, from) in
      let place : add64 0 b.start_offset ≡ start = omega (arith, from) in
      let count : b.end_offset - b.start_offset ≡ length buffer = omega (arith, from, to) in
      let behind : add64 start (b.end_offset - b.start_offset) ≡ next = omega (arith, from, to) in
      rw ordered (rw (place, count) (rw read (rw (expected, behind))))

  check_blocks-nil :
      (file : Bytes) (start : ℕ) (h : sha.State)
      → check_blocks sha abort ignore file 0 [] start h
        ≡ record { report = nothing; next_start_offset = start; hasher = h }
  unfolding check_blocks
  check_blocks-nil file start h = refl

  -- The blocks of some chunks, where their streams stand.
  pub check_blocks-streams :
      (zlib : Zlib) (level offset start : ℕ) (cs : List Bytes) (before after : Bytes)
      (h : sha.State)
      → length before ≡ offset + start
      → length before + length (streams zlib level cs) < 2 ^ 63
      → check_blocks sha abort ignore
          (before ++ (streams zlib level cs ++ after))
          0
          (map (move_block 0 offset) (blocks_from zlib level start cs))
          (offset + start)
          h
        ≡ record {
          report = nothing;
          next_start_offset = offset + (start + length (streams zlib level cs));
          hasher = sha.update h (streams zlib level cs);
        }
  check_blocks-streams zlib level offset start [] before after h at fits =
      let none_more : start + 0 ≡ start = omega arith in
      rw (check_blocks-nil, sha.update_nil, none_more)
  check_blocks-streams zlib level offset start (c ∷ cs) before after h at fits =
      let s = zlib.compress level c in
      let rest = streams zlib level cs in
      let all = length-append s rest in
      let read =
        read_at-append before s (rest ++ after) (offset + start) (length s) (sym at) refl
          (omega arith) in
      let first =
        check_blocks-next (before ++ (s ++ (rest ++ after)))
          (move_block 0 offset (record { start_offset = start; end_offset = start + length s }))
          (map (move_block 0 offset) (blocks_from zlib level (start + length s) cs))
          (offset + start) (offset + (start + length s)) h s (omega arith) (omega arith)
          (omega arith) (omega arith) read in
      let more =
        check_blocks-streams zlib level offset (start + length s) cs (before ++ s) after
          (sha.update h s) (omega (arith, length-append before s))
          (omega (arith, length-append before s)) in
      let total : start + length s + length rest ≡ start + length (s ++ rest) =
        omega (arith, all) in
      rw append_assoc (first ∙ (rw append_assoc at more) ∙ rw (sha.update-update, total))
