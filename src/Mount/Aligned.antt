-- ===== src/Mount/Aligned.antt =====
-- src/mount.rs: `read` of a file in blocks, at the start of one of them.
use native.Mathlib.Nat.{
  mul-add-div_right, div-eq_of_lt, div-eq-sub-div, mod-eq-sub-mod, mod-eq_of_lt,
  mul-add-mod_self_right, mul-div_left,
}
use rust_u4pak.Common.{
  ℕ, zero, suc, ◌+◌, ◌-◌, ◌*◌, ◌/◌, ◌%◌, ◌^◌, ◌<◌, ◌≤◌, ◌≡◌, ◌∙◌, inl, inr, refl, ap, arith, false,
  Bool-cases, List, [], ◌∷◌, ◌++◌, flatten, ltb, ◌==◌, if◌then◌else◌, Bytes, length, take, drop,
  length-append,
}
use rust_u4pak.Word64.{add64, mul64}
use rust_u4pak.Io.{done}
use rust_u4pak.Crypto.{ZlibReader}
use rust_u4pak.Record.{CompressionBlock}
use rust_u4pak.Mount.Inode.{FileData}
use rust_u4pak.Mount.Handlers.{reply}
use rust_u4pak.Mount.Reading.{min, read_blocks, end_block, read_zlib}
use rust_u4pak.Mount.Slices.{take-least, drop-all, length-drop}
use rust_u4pak.Mount.Blocks.{
  AreChunks, whole_eq, AreChunks-cons, Covers, Stored, read_blocks-Stored,
}

-- The blocks that `read` asks for cover what it asks for.
end_block_step :
    (size rest : ℕ)
    → 0 < size
    → size ≤ rest
    → end_block rest size ≡ suc (end_block (rest - size) size)
end_block_step size rest positive h =
    let one_less : rest / size ≡ (rest - size) / size + 1 = div-eq-sub-div positive h in
    let same : rest % size ≡ (rest - size) % size = mod-eq-sub-mod h in
    rw (one_less, same) (ground arith)

end_block_small : (size rest : ℕ) → rest < size → Covers size (end_block rest size) rest
end_block_small size zero h =
    let none : 0 / size ≡ 0 = div-eq_of_lt h in
    let same : 0 % size ≡ 0 = mod-eq_of_lt h in rw (none, same) refl
end_block_small size (suc rest) h =
    let none : suc rest / size ≡ 0 = div-eq_of_lt h in
    let same : suc rest % size ≡ suc rest = mod-eq_of_lt h in
    let some_is : (suc rest == 0) ≡ false = ground arith in
    rw (none, same, some_is) (omega arith, omega arith)

end_block-Covers :
    (size fuel rest : ℕ) → 0 < size → rest < fuel → Covers size (end_block rest size) rest
end_block-Covers size zero rest positive h = absurd (omega arith)
end_block-Covers size (suc fuel) rest positive h = elim (Bool-cases (ltb rest size)) [
  | inl last ↦ end_block_small size rest (ground arith)
  | inr more ↦
      rw (end_block_step size rest positive (ground arith))
        (ground (arith, positive), end_block-Covers size fuel (rest - size) positive (ground arith))
]

end_block-add :
    (k rest size : ℕ) → 0 < size → end_block (k * size + rest) size ≡ k + end_block rest size
end_block-add k rest size positive =
    rw (mul-add-div_right positive k rest, mul-add-mod_self_right k size rest) (ground arith)

-- So many blocks are there, at the least.
end_block_lt : (size rest : ℕ) → rest < size → end_block rest size ≡ (if rest == 0 then 0 else 1)
end_block_lt size rest h =
    let none : rest / size ≡ 0 = div-eq_of_lt h in
    let same : rest % size ≡ rest = mod-eq_of_lt h in rw (none, same) (ground arith)

end_block-le :
    (size rest : ℕ) (cs : List Bytes)
    → 0 < size
    → AreChunks size cs
    → rest ≤ length (flatten cs)
    → end_block rest size ≤ length cs
unfolding flatten
end_block-le size rest [] positive chunks h =
    ground (arith, end_block_lt size rest (omega (arith, h, positive)))
end_block-le size rest (c ∷ cs) positive chunks h = elim (Bool-cases (ltb rest size)) [
  | inl last ↦ ground (arith, end_block_lt size rest (ground arith))
  | inr more ↦
      let (short, chunks', other) = AreChunks-cons size c cs chunks in
      let within =
        end_block-le size (rest - size) cs positive chunks'
          (omega (arith, h, short, length-append c (flatten cs))) in
      rw (end_block_step size rest positive (ground arith)) (omega (arith, within))
]

drop-plus : {A : Type 0} (xs ys : List A) (i : ℕ) → drop (length xs + i) (xs ++ ys) ≡ drop i ys
drop-plus [] ys i = let e : 0 + i ≡ i = omega arith in rw e
drop-plus (x ∷ xs) ys i =
    let e : suc (length xs) + i ≡ suc (length xs + i) = omega arith in rw e (drop-plus xs ys i)

-- The blocks and the chunks behind the first ones.
AreChunks-drop : (size k : ℕ) (cs : List Bytes) → AreChunks size cs → AreChunks size (drop k cs)
AreChunks-drop size zero cs h = h
AreChunks-drop size (suc k) [] h = tt
AreChunks-drop size (suc k) (c ∷ cs) h =
    let (short, chunks, other) = AreChunks-cons size c cs h in AreChunks-drop size k cs chunks

flatten-drop :
    (size k : ℕ) (cs : List Bytes)
    → AreChunks size cs
    → k * size ≤ length (flatten cs)
    → drop (k * size) (flatten cs) ≡ flatten (drop k cs)
unfolding flatten
flatten-drop size zero cs h g = let e : 0 * size ≡ 0 = omega arith in rw e
flatten-drop size (suc k) [] h g = drop-all [] (suc k * size) (omega arith)
flatten-drop size (suc k) (c ∷ cs) h g =
    let (short, chunks, other) = AreChunks-cons size c cs h in
    let full : length c ≡ size = whole_eq size c cs (suc k * size) other short (omega arith) g in
    let e : suc k * size ≡ length c + k * size = omega (arith, full) in
    let left : k * size ≤ length (flatten cs) =
      omega (arith, g, full, length-append c (flatten cs)) in
    rw e (drop-plus c (flatten cs) (k * size) ∙ flatten-drop size k cs chunks left)

module _ (zlib : ZlibReader) (bytes : Bytes) where
  Stored-drop :
      (k : ℕ) (blocks : List CompressionBlock) (cs : List Bytes)
      → Stored zlib bytes blocks cs
      → Stored zlib bytes (drop k blocks) (drop k cs)
  Stored-drop zero blocks cs h = h
  Stored-drop (suc k) [] [] h = tt
  Stored-drop (suc k) [] (c ∷ cs) h = absurd h
  Stored-drop (suc k) (b ∷ blocks) [] h = absurd h
  Stored-drop (suc k) (b ∷ blocks) (c ∷ cs) (here, rest) = Stored-drop k blocks cs rest

  length-Stored :
      (blocks : List CompressionBlock) (cs : List Bytes)
      → Stored zlib bytes blocks cs
      → length blocks ≡ length cs
  length-Stored [] [] h = refl
  length-Stored [] (c ∷ cs) h = absurd h
  length-Stored (b ∷ blocks) [] h = absurd h
  length-Stored (b ∷ blocks) (c ∷ cs) (here, rest) = ap suc (length-Stored blocks cs rest)

  module _ (f : FileData) (blocks : List CompressionBlock) (cs : List Bytes) (k : ℕ)
      (chunks : AreChunks f.compression_block_size cs) (stored : Stored zlib bytes blocks cs)
      (positive : 0 < f.compression_block_size) (small : f.compression_block_size < 2 ^ 32)
      (size_is : f.uncompressed_size ≡ length (flatten cs)) (fits : length (flatten cs) < 2 ^ 62)
      (inside : k * f.compression_block_size < length (flatten cs)) where
    abbrev size : ℕ
    size = f.compression_block_size

    -- The loop over the blocks from the first one on.
    read_blocks-rest :
        (rest : ℕ)
        → k * size + rest ≤ length (flatten cs)
        → read_blocks zlib bytes size
            (k * size)
            (k * size + rest)
            (k * size)
            (take (end_block rest size) (drop k blocks))
            []
          ≡ done (reply (take rest (drop (k * size) (flatten cs))))
    read_blocks-rest rest within =
        let same : k * size + rest - k * size ≡ rest = omega arith in
        let behind = flatten-drop size k cs chunks (omega arith) in
        let left = length-drop (flatten cs) (k * size) in
        let covers = end_block-Covers size (suc rest) rest positive (omega arith) in
        let all =
          read_blocks-Stored zlib bytes size (k * size) positive small (drop k cs) (drop k blocks)
            (end_block rest size) (k * size + rest) (k * size) [] (AreChunks-drop size k cs chunks)
            (Stored-drop k blocks cs stored) (omega arith) (omega arith) (omega arith)
            (rw (← behind) (omega (arith, left))) (rw same covers) in
        all ∙ ap (λ b. done (reply b)) (rw (same, behind))

    known :
        (rest : ℕ)
        → k * size + rest ≤ length (flatten cs)
        → ltb (length blocks) (k + end_block rest size) ≡ false
    known rest within =
        let total = end_block-add k rest size positive in
        let most = end_block-le size (k * size + rest) cs positive chunks within in
        ground (arith, length-Stored blocks cs stored, rw total at most)

    pub read_zlib-aligned :
        (wanted : ℕ)
        → wanted < 2 ^ 32
        → read_zlib zlib bytes f blocks (k * size) wanted
          ≡ done (reply (take wanted (drop (k * size) (flatten cs))))
    unfolding read_zlib
    read_zlib-aligned wanted low =
        let rest = min wanted (length (flatten cs) - k * size) in
        let end_is : min (add64 (k * size) wanted) f.uncompressed_size ≡ k * size + rest =
          ground arith in
        let first : k * size / size ≡ k = mul-div_left k positive in
        let last = end_block-add k rest size positive in
        let start : mul64 size k ≡ k * size = omega arith in
        let some_size : (size == 0) ≡ false = ground arith in
        let ordered : ltb (k + end_block rest size) k ≡ false = ground arith in
        let count : k + end_block rest size - k ≡ end_block rest size = omega arith in
        let within : k * size + rest ≤ length (flatten cs) = ground arith in
        let taken =
          take-least (drop (k * size) (flatten cs)) rest wanted
            (ground (arith, length-drop (flatten cs) (k * size))) in
        rw some_size (
          rw (end_is, first, last)
            (rw (ordered, known rest within, start, count)
              (read_blocks-rest rest within ∙ ap (λ b. done (reply b)) taken)))
