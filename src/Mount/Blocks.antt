-- ===== src/Mount/Blocks.antt =====
-- src/mount.rs: `read` of a file in blocks, as the loop over them.
use rust_u4pak.Common.{
  ℕ, zero, suc, ◌+◌, ◌-◌, ◌^◌, ◌<◌, ◌≤◌, ◌≡◌, ◌∙◌, ◌⊎◌, inl, inr, refl, ap, arith, true, false,
  Bool-cases, some, List, [], ◌∷◌, ◌++◌, append_assoc, append-nil, flatten, ltb, leb, Bytes, length,
  take, length-append,
}
use rust_u4pak.Word64.{add64, sub64}
use rust_u4pak.Io.{done}
use rust_u4pak.Crypto.{ZlibReader}
use rust_u4pak.Record.{CompressionBlock}
use rust_u4pak.Mount.Handlers.{reply}
use rust_u4pak.Mount.Reading.{read_exact_at, read_block, read_blocks}

-- Chunks of this size, of which only the last may be shorter.
abbrev pub AreChunks : ℕ → List Bytes → Type 0
AreChunks size [] = Unit
AreChunks size (c ∷ []) = length c ≤ size
AreChunks size (c ∷ d ∷ cs) = (length c ≡ size) × AreChunks size (d ∷ cs)

-- So many blocks are there for this rest of the data.
abbrev pub Covers : ℕ → ℕ → ℕ → Type 0
Covers size zero rest = rest ≡ 0
Covers size (suc m) rest = (0 < rest) × Covers size m (rest - size)

module _ (zlib : ZlibReader) (bytes : Bytes) where
  -- Each block holds a stream that decodes to its chunk.
  abbrev pub Stored : List CompressionBlock → List Bytes → Type 0
  Stored [] [] = Unit
  Stored (b ∷ bs) (c ∷ cs) =
      ((s : Bytes) × (read_exact_at bytes (sub64 b.end_offset b.start_offset) b.start_offset
          ≡ done (reply s))
        × (zlib.zlib.decompress s ≡ some c))
      × Stored bs cs
  Stored _ _ = ⊥

  module _ (size offset : ℕ) (positive : 0 < size) (small : size < 2 ^ 32) where
    -- A block of which no more than a part is wanted.
    read_block-part :
        (end current : ℕ) (b : CompressionBlock) (s c out : Bytes)
        → offset ≤ current
        → current ≤ end
        → end < current + size
        → end - current ≤ length c
        → end < 2 ^ 62
        → read_exact_at bytes (sub64 b.end_offset b.start_offset) b.start_offset ≡ done (reply s)
        → zlib.zlib.decompress s ≡ some c
        → read_block zlib bytes size offset end current b out
          ≡ done (reply (out ++ take (end - current) c))
    unfolding read_block
    read_block-part end current b s c out started within part enough fits read decode =
        let early : ltb current offset ≡ false = ground arith in
        let late : ltb end (add64 current size) ≡ true = ground arith in
        let count : sub64 end current ≡ end - current = omega arith in
        let exact : leb (end - current) (length c) ≡ true = ground arith in
        let prefix : zlib.read_exact (end - current) s ≡ some (take (end - current) c) =
          zlib.read_exact-decompress (end - current) s c decode ∙ rw exact in
        rw read (rw early (rw late (rw count (rw prefix))))

    read_block-all :
        (end current : ℕ) (b : CompressionBlock) (s c out : Bytes)
        → offset ≤ current
        → current + size ≤ end
        → end < 2 ^ 62
        → read_exact_at bytes (sub64 b.end_offset b.start_offset) b.start_offset ≡ done (reply s)
        → zlib.zlib.decompress s ≡ some c
        → read_block zlib bytes size offset end current b out ≡ done (reply (out ++ c))
    unfolding read_block
    read_block-all end current b s c out started within fits read decode =
        let early : ltb current offset ≡ false = ground arith in
        let whole : ltb end (add64 current size) ≡ false = ground arith in
        rw read (rw early (rw whole (rw decode)))

pub AreChunks-cons :
    (size : ℕ) (c : Bytes) (cs : List Bytes)
    → AreChunks size (c ∷ cs)
    → (length c ≤ size) × AreChunks size cs × ((cs ≡ []) ⊎ (length c ≡ size))
AreChunks-cons size c [] h = (h, tt, inl refl)
AreChunks-cons size c (d ∷ cs) (full, h) = (omega arith, h, inr full)

take-append_le :
    {A : Type 0} (xs ys : List A) (n : ℕ) → n ≤ length xs → take n (xs ++ ys) ≡ take n xs
take-append_le xs ys zero h = refl
take-append_le [] ys (suc n) h = absurd (omega arith)
take-append_le (x ∷ xs) ys (suc n) h = ap (◌∷◌ x) (take-append_le xs ys n (omega arith))

take-append_ge :
    {A : Type 0} (xs ys : List A) (n : ℕ)
    → length xs ≤ n
    → take n (xs ++ ys) ≡ xs ++ take (n - length xs) ys
take-append_ge [] ys n h = let e : n - 0 ≡ n = omega arith in rw e
take-append_ge (x ∷ xs) ys zero h = absurd (omega arith)
take-append_ge (x ∷ xs) ys (suc n) h =
    let e : suc n - suc (length xs) ≡ n - length xs = omega arith in
    rw e (ap (◌∷◌ x) (take-append_ge xs ys n (omega arith)))

-- The chunk of a block that is wanted in part, and of one that is wanted whole.
part_le :
    (size : ℕ) (c : Bytes) (cs : List Bytes) (n : ℕ)
    → (cs ≡ []) ⊎ (length c ≡ size)
    → n < size
    → n ≤ length (c ++ flatten cs)
    → n ≤ length c
unfolding flatten
part_le size c cs n (inl last) h k =
    let e : length (c ++ flatten cs) ≡ length c = rw last (ap length (append-nil c)) in
    omega (arith, e)
part_le size c cs n (inr full) h k = omega (arith, full)

pub whole_eq :
    (size : ℕ) (c : Bytes) (cs : List Bytes) (n : ℕ)
    → (cs ≡ []) ⊎ (length c ≡ size)
    → length c ≤ size
    → size ≤ n
    → n ≤ length (c ++ flatten cs)
    → length c ≡ size
unfolding flatten
whole_eq size c cs n (inl last) g h k =
    let e : length (c ++ flatten cs) ≡ length c = rw last (ap length (append-nil c)) in
    omega (arith, e)
whole_eq size c cs n (inr full) g h k = full

Covers-zero : (size m n : ℕ) → n ≡ 0 → Covers size m n → m ≡ 0
Covers-zero size zero n h k = refl
Covers-zero size (suc m) n h (more, k) = absurd (omega arith)

module _ (zlib : ZlibReader) (bytes : Bytes) (size offset : ℕ) (positive : 0 < size)
    (small : size < 2 ^ 32) where
  pub read_blocks-Stored :
      (cs : List Bytes) (blocks : List CompressionBlock) (m end current : ℕ) (out : Bytes)
      → AreChunks size cs
      → Stored zlib bytes blocks cs
      → offset ≤ current
      → current ≤ end
      → end < 2 ^ 62
      → end - current ≤ length (flatten cs)
      → Covers size m (end - current)
      → read_blocks zlib bytes size offset end current (take m blocks) out
        ≡ done (reply (out ++ take (end - current) (flatten cs)))
  unfolding read_blocks flatten
  read_blocks-Stored cs blocks zero end current out chunks stored started within fits enough
        covers =
      rw covers (rw append-nil)
  read_blocks-Stored [] blocks (suc m) end current out chunks stored started within fits enough
        (more, covers) =
      absurd (omega arith)
  read_blocks-Stored (c ∷ cs) [] (suc m) end current out chunks stored started within fits enough
        covers =
      absurd stored
  read_blocks-Stored (c ∷ cs) (b ∷ blocks) (suc m) end current out chunks
        ((s, read, decode), stored) started within fits enough (more, covers) =
      let (short, chunks', last) = AreChunks-cons size c cs chunks in
      elim (Bool-cases (ltb end (current + size))) [
        | inl part ↦
            let n_le = part_le size c cs (end - current) last (ground arith) enough in
            let none_left = Covers-zero size m (end - current - size) (ground arith) covers in
            let taken = take-append_le c (flatten cs) (end - current) n_le in
            rw
              (read_block-part zlib bytes size offset positive small end current b s c out started
                within (ground arith) n_le fits read decode)
              (rw none_left (rw taken))
        | inr whole ↦
            let full = whole_eq size c cs (end - current) last short (ground arith) enough in
            let taken : take (end - current) (c ++ flatten cs)
                ≡ c ++ take (end - (current + size)) (flatten cs) =
              take-append_ge c (flatten cs) (end - current) (ground arith)
              ∙ ap (λ n. c ++ take n (flatten cs)) (omega (arith, full)) in
            let next : add64 current size ≡ current + size = ground arith in
            let less : end - current - size ≡ end - (current + size) = omega arith in
            let rest =
              read_blocks-Stored cs blocks m end (current + size) (out ++ c) chunks' stored
                (omega arith) (ground arith) fits
                (omega (arith, full, length-append c (flatten cs))) (rw less at covers) in
            rw
              (read_block-all zlib bytes size offset positive small end current b s c out started
                (ground arith) fits read decode)
              (rw (next, taken)
                (rest
                  ∙ ap (λ b. done (reply b))
                      (append_assoc out c (take (end - (current + size)) (flatten cs)))))
      ]
