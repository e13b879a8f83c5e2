-- ===== src/Mount/Unaligned.antt =====
-- src/mount.rs: `read` of a file in blocks, behind the first block and not at the start of one.
use native.Mathlib.Nat.{
  div-add-mod, div-add-mod', mod-lt, div-le_self, div-mul-le_self, mul-le-mul_right,
}
use rust_u4pak.Common.{
  ℕ, zero, suc, ◌-◌, ◌*◌, ◌/◌, ◌%◌, ◌^◌, ◌<◌, ◌≤◌, ◌≡◌, ◌≢◌, inl, inr, refl, arith, ◌||◌, true,
  Bool-cases, Option-cases, some, List, [], ◌∷◌, ltb, ◌==◌, Bytes, length, take, drop,
}
use rust_u4pak.Word64.{add64, sub64, mul64}
use rust_u4pak.Io.{done}
use rust_u4pak.Results.{Result-cases}
use rust_u4pak.Crypto.{ZlibReader}
use rust_u4pak.Record.{CompressionBlock}
use rust_u4pak.Mount.Inode.{FileData}
use rust_u4pak.Mount.Handlers.{reply, error}
use rust_u4pak.Mount.Slices.{length-drop}
use rust_u4pak.Mount.Reading.{min, read_exact_at, read_block, read_blocks, end_block, read_zlib}

module _ (zlib : ZlibReader) (bytes : Bytes) where
  module _ (size offset end current : ℕ) (behind : size < offset) (before : current < offset) where
    decoded-short :
        (s out : Bytes)
        → zlib.read_exact (min size end) s ≡ some out
        → ltb (length out) offset ≡ true
    decoded-short s out h =
        let filled = zlib.length-read_exact (min size end) s out h in ground (arith, filled)

    read_block-early :
        (b : CompressionBlock) (out reply_bytes : Bytes)
        → read_block zlib bytes size offset end current b out ≢ done (reply reply_bytes)
    unfolding read_block
    read_block-early b out reply_bytes h =
        elim (Result-cases
          (read_exact_at bytes (sub64 b.end_offset b.start_offset) b.start_offset)) [
            | inr (e, broken) ↦ let clash = rw broken at h in cc
            | inl (error e, broken) ↦ let clash = rw broken at h in cc
            | inl (reply s, read) ↦
                let early : ltb current offset ≡ true = ground arith in
                let h' = rw early at (rw read at h) in
                elim (Option-cases (zlib.read_exact (min size end) s)) [
                  | inl none_is ↦ let clash = rw none_is at h' in cc
                  | inr (decoded_bytes, some_is) ↦
                      let clash =
                        rw (decoded-short s decoded_bytes some_is) at (rw some_is at h') in
                      cc
                ]
          ]

    read_blocks-early :
        (b : CompressionBlock) (blocks : List CompressionBlock) (out reply_bytes : Bytes)
        → read_blocks zlib bytes size offset end current (b ∷ blocks) out ≢ done (reply reply_bytes)
    unfolding read_blocks
    read_blocks-early b blocks out reply_bytes h =
        elim (Result-cases (read_block zlib bytes size offset end current b out)) [
          | inr (e, broken) ↦ let clash = rw broken at h in cc
          | inl (error e, broken) ↦ let clash = rw broken at h in cc
          | inl (reply some_bytes, is) ↦ read_block-early b out some_bytes is
        ]

  -- The blocks of what is asked for reach its end.
  end_block_ge : (size end : ℕ) → 0 < size → end ≤ end_block end size * size
  end_block_ge size end positive = elim (Bool-cases (end % size == 0)) [
    | inl none_left ↦ rw none_left (ground (arith, div-add-mod' end size))
    | inr some_left ↦ rw some_left (omega (arith, div-add-mod' end size, mod-lt end positive))
  ]

  end_block_gt :
      (size offset end : ℕ) → 0 < size → offset < end → offset / size < end_block end size
  end_block_gt size offset end positive h =
      elim (Bool-cases (ltb (offset / size) (end_block end size))) [
        | inl more ↦ ground arith
        | inr few ↦
            let fewer : end_block end size ≤ offset / size = ground arith in
            let less = mul-le-mul_right size fewer in
            absurd
              (omega (arith, less, end_block_ge size end positive, div-mul-le_self offset size))
      ]

  take-some :
      (n : ℕ) (l : List CompressionBlock)
      → 0 < n
      → n ≤ length l
      → (b : CompressionBlock) × (rest : List CompressionBlock) × (take n l ≡ b ∷ rest)
  take-some zero l h k = absurd (omega arith)
  take-some (suc n) [] h k = absurd (omega arith)
  take-some (suc n) (b ∷ l) h k = (b, take n l, refl)

  -- Read sends no data for a positive number of bytes of a compressed file in blocks, from an
  -- offset behind the first block that is not the start of a block, whatever the file holds.
  pub read_zlib-unaligned :
      (f : FileData) (blocks : List CompressionBlock) (offset wanted : ℕ) (out : Bytes)
      → f.compression_block_size < offset
      → 0 < offset % f.compression_block_size
      → offset < f.uncompressed_size
      → f.uncompressed_size < 2 ^ 62
      → 0 < wanted
      → wanted < 2 ^ 32
      → read_zlib zlib bytes f blocks offset wanted ≢ done (reply out)
  unfolding read_zlib
  read_zlib-unaligned f blocks offset wanted out behind between inside fits some_wanted low h =
      let size = f.compression_block_size in
      elim (Bool-cases (size == 0)) [
        | inl no_size ↦ let clash = rw no_size at h in cc
        | inr some_size ↦
            let end = min (add64 offset wanted) f.uncompressed_size in
            let h' = rw some_size at h in
            elim (Bool-cases (
              ltb (end_block end size) (offset / size)
              || ltb (length blocks) (end_block end size))) [
                | inl outside ↦ let clash = rw outside at h' in cc
                | inr known ↦
                    let h'' = rw known at h' in
                    let more = end_block_gt size offset end (ground arith) (ground arith) in
                    let left = length-drop blocks (offset / size) in
                    let (b, rest, slice) =
                      take-some (end_block end size - offset / size) (drop (offset / size) blocks)
                        (omega (arith, more)) (ground (arith, left)) in
                    read_blocks-early size offset end (mul64 size (offset / size)) behind
                      (omega (arith, div-add-mod offset size, div-le_self offset size)) b rest []
                      out (rw slice at h'')
              ]
      ]
