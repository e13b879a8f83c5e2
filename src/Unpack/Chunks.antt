-- ===== src/Unpack/Chunks.antt =====
-- Data that consists of zlib streams, one for each chunk of a file, and its blocks.
use rust_u4pak.Common.{
  ℕ, zero, suc, ◌+◌, ◌-◌, ◌*◌, ◌^◌, ◌≤◌, ◌<◌, ◌≡◌, refl, ap, arith, true, false, ◌||◌, List, [],
  ◌∷◌, ◌++◌, append_assoc, flatten, ltb, Bytes, length, length-append, take, drop-append, map,
}
use rust_u4pak.Word64.{add64, sub64}
use rust_u4pak.Io.{done}
use rust_u4pak.Crypto.{Zlib}
use rust_u4pak.Record.{CompressionBlock, move_block}
use rust_u4pak.Results.{◌>>=◌}
use rust_u4pak.Unpack.Defs.{slice, block_offset, inflate, inflated, unpack_blocks}

take-append : (xs ys : Bytes) (n : ℕ) → n ≡ length xs → take n (xs ++ ys) ≡ xs
take-append [] ys zero h = refl
take-append [] ys (suc n) h = absurd (omega arith)
take-append (x ∷ xs) ys zero h = absurd (omega arith)
take-append (x ∷ xs) ys (suc n) h = ap (◌∷◌ x) (take-append xs ys n (omega arith))

-- A slice in the middle.
pub slice-append :
    (a b c : Bytes) (i j : ℕ)
    → i ≡ length a
    → j ≡ length a + length b
    → slice (a ++ (b ++ c)) i j ≡ done b
slice-append a b c i j i_is j_is =
    let above : (ltb j i || ltb (length (a ++ (b ++ c))) j) ≡ false =
      ground (arith, length-append a (b ++ c), length-append b c) in
    rw (above, drop-append a (b ++ c) i i_is) (ap done (take-append b c (j - i) (omega arith)))

block_offset-moved :
    (version header offset x : ℕ)
    → version < 5
    → header ≤ x
    → offset + x < 2 ^ 63
    → block_offset version header (add64 offset header) (add64 (sub64 x 0) offset) ≡ x - header
block_offset-moved version header offset x old above fits =
    let before : ltb version 5 ≡ true = ground arith in rw before (omega arith)

module _ (zlib : Zlib) (level : ℕ) where
  -- The streams of some chunks, and the blocks that they are from an offset on.
  abbrev pub streams : List Bytes → Bytes
  streams [] = []
  streams (c ∷ cs) = zlib.compress level c ++ streams cs

  abbrev pub blocks_from : ℕ → List Bytes → List CompressionBlock
  blocks_from start [] = []
  blocks_from start (c ∷ cs) =
      let end = start + length (zlib.compress level c) in
      record { start_offset = start; end_offset = end } ∷ blocks_from end cs

  pub inflate-compress : (c : Bytes) → inflate zlib (zlib.compress level c) ≡ done c
  inflate-compress c = ap inflated (zlib.decompress-compress level c)

  -- The blocks that are moved with their record are unpacked to the chunks.
  pub unpack_blocks-streams :
      (version header offset start : ℕ) (before : Bytes) (cs : List Bytes)
      → version < 5
      → header + length before ≡ start
      → offset + (start + length (streams cs)) < 2 ^ 63
      → unpack_blocks zlib version header
          (add64 offset header)
          (before ++ streams cs)
          (map (move_block 0 offset) (blocks_from start cs))
        ≡ done (flatten cs)
  unfolding unpack_blocks flatten
  unpack_blocks-streams version header offset start before [] old e fits = refl
  unpack_blocks-streams version header offset start before (c ∷ cs) old e fits =
      let s = zlib.compress level c in
      let all : length (s ++ streams cs) ≡ length s + length (streams cs) =
        length-append s (streams cs) in
      let rest =
        unpack_blocks-streams version header offset (start + length s) (before ++ s) cs old
          (omega (arith, length-append before s)) (omega arith) in
      let from = block_offset-moved version header offset start old (omega arith) (omega arith) in
      let to =
        block_offset-moved version header offset (start + length s) old (omega arith)
          (omega arith) in
      let stream =
        slice-append before s (streams cs) (start - header) (start + length s - header)
          (omega arith) (omega arith) in
      rw (from, to)
        (rw (stream, ◌>>=◌) (rw (inflate-compress c, ◌>>=◌) (rw (rw append_assoc at rest, ◌>>=◌))))

  -- Streams are not much longer than their chunks.
  pub length-streams :
      (cs : List Bytes) → length (streams cs) ≤ 2 * length (flatten cs) + 64 * length cs
  unfolding flatten
  length-streams [] = omega arith
  length-streams (c ∷ cs) = omega (
    arith,
    length-append (zlib.compress level c) (streams cs),
    zlib.length-compress level c,
    length-append c (flatten cs),
    length-streams cs,
  )
