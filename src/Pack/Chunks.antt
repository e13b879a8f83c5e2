-- ===== src/Pack/Chunks.antt =====
-- src/pack.rs: the loops of a worker, against the chunks of a file.
use native.Mathlib.Nat.{div-eq_of_lt, div-eq-sub-div}
use rust_u4pak.Common.{
  ℕ, zero, suc, ◌+◌, ◌-◌, ◌/◌, ◌^◌, ◌≤◌, ◌<◌, ◌≡◌, ◌∙◌, inl, inr, refl, sym, ap, arith, true, false,
  Bool-cases, List, [], ◌∷◌, ◌++◌, append_assoc, append-nil, foldl, flatten, ltb, leb,
  if◌then◌else◌, Bytes, length, length-append, take, drop, replicate,
}
use rust_u4pak.Word64.{add64}
use rust_u4pak.Io.{ok, ◌>>=◌, read_exact, read_exact_lem}
use rust_u4pak.Crypto.{Sha1Hasher, Zlib}
use rust_u4pak.Pack.Defs.{
  buffer_size, copy_loop, write_uncompressed, Blocks, compress_block, block_loop,
}
use rust_u4pak.Unpack.Chunks.{streams, blocks_from}

pub take-drop : (n : ℕ) (xs : Bytes) → take n xs ++ drop n xs ≡ xs
take-drop zero xs = refl
take-drop (suc n) [] = refl
take-drop (suc n) (x ∷ xs) = ap (◌∷◌ x) (take-drop n xs)

pub length-take_le : (n : ℕ) (xs : Bytes) → n ≤ length xs → length (take n xs) ≡ n
length-take_le zero xs h = refl
length-take_le (suc n) [] h = absurd (omega arith)
length-take_le (suc n) (x ∷ xs) h = ap suc (length-take_le n xs (omega arith))

pub length-drop : (n : ℕ) (xs : Bytes) → length (drop n xs) ≡ length xs - n
length-drop zero xs = omega arith
length-drop (suc n) [] = omega arith
length-drop (suc n) (x ∷ xs) = omega (arith, length-drop n xs)

nil_of_length : (xs : Bytes) → length xs ≡ 0 → xs ≡ []
nil_of_length [] h = refl
nil_of_length (x ∷ xs) h = absurd (omega arith)

zero_of_ltb : (n : ℕ) → ltb 0 n ≡ false → n ≡ 0
zero_of_ltb n h = ground arith

ltb_of_leb : (a b : ℕ) → leb a b ≡ false → b < a
ltb_of_leb a b h = ground arith

-- A part of a file is read.
pub read_exact-take :
    (n : ℕ) (xs s : Bytes)
    → n ≤ length xs
    → read_exact n (xs ++ s) ≡ ok (take n xs) (drop n xs ++ s)
read_exact-take n xs s h =
    ap (λ ys. read_exact n (ys ++ s)) (sym (take-drop n xs))
    ∙ ap (read_exact n) (append_assoc (take n xs) (drop n xs) s)
    ∙ read_exact_lem n (take n xs) (drop n xs ++ s) (length-take_le n xs h)

module _ (sha : Sha1Hasher) where
  -- The loop copies what it is told to, whatever its size, and hashes it.
  copy_loop-append :
      (fuel n : ℕ) (h : sha.State) (out content s : Bytes)
      → length content ≡ n
      → n < fuel
      → copy_loop sha fuel n h out (content ++ s) ≡ ok (sha.update h content, out ++ content) s
  unfolding copy_loop
  copy_loop-append zero n h out content s e more = absurd (omega arith)
  copy_loop-append (suc fuel) n h out content s e more = elim (Bool-cases (leb buffer_size n)) [
    | inl full ↦
        let enough : buffer_size ≤ length content = ground arith in
        let rest =
          copy_loop-append fuel (n - buffer_size) (sha.update h (take buffer_size content))
            (out ++ take buffer_size content) (drop buffer_size content) s
            (omega (arith, length-drop buffer_size content)) (omega arith) in
        rw full (
          rw (read_exact-take buffer_size content s enough, ◌>>=◌)
            (rest ∙ rw (sha.update-update, append_assoc, take-drop)))
    | inr short ↦ elim (Bool-cases (ltb 0 n)) [
      | inl some_left ↦ rw (short, some_left) (rw (read_exact_lem n content s e, ◌>>=◌))
      | inr none_left ↦
          let empty : content ≡ [] = nil_of_length content (e ∙ zero_of_ltb n none_left) in
          rw (short, none_left) (rw (empty, sha.update_nil, append-nil))
    ]
  ]

  -- `write_uncompressed` writes the content behind a header of zeros, and its checksum.
  pub write_uncompressed_lem :
      (header : ℕ) (content s : Bytes)
      → write_uncompressed sha header (length content) (content ++ s)
        ≡ ok (replicate header 0 ++ content, sha.finish (sha.update sha.new content)) s
  unfolding write_uncompressed
  write_uncompressed_lem header content s = rw (
    copy_loop-append (suc (length content)) (length content) sha.new (replicate header 0) content s
        refl (omega arith),
    ◌>>=◌,
  )

-- What the loop over the blocks reads: chunks of `block_size` bytes, and a shorter one at the end.
unfoldable pub chunks : ℕ → ℕ → Bytes → List Bytes
chunks zero block_size content = []
chunks (suc fuel) block_size content =
    let rest = chunks fuel block_size (drop block_size content) in
    if leb block_size (length content)
    then take block_size content ∷ rest
    else if ltb 0 (length content)
    then content ∷ []
    else []

pub flatten-chunks :
    (fuel block_size : ℕ) (content : Bytes)
    → 0 < block_size
    → length content < fuel
    → flatten (chunks fuel block_size content) ≡ content
unfolding chunks flatten
flatten-chunks zero block_size content pos more = absurd (omega arith)
flatten-chunks (suc fuel) block_size content pos more =
    elim (Bool-cases (leb block_size (length content))) [
      | inl full ↦
          let rest = flatten-chunks fuel block_size (drop block_size content) pos (shorter full) in
          rw (full, rest) (take-drop block_size content)
      | inr short ↦ elim (Bool-cases (ltb 0 (length content))) [
        | inl some_left ↦ rw (short, some_left) (append-nil content)
        | inr none_left ↦
            rw (short, none_left)
              (sym (nil_of_length content (zero_of_ltb (length content) none_left)))
      ]
    ]
  where
    shorter : leb block_size (length content) ≡ true → length (drop block_size content) < fuel
    shorter full = ground (arith, length-drop block_size content)

-- The number of blocks that a size is divided into, as `worker_proc` computes it.
abbrev pub block_count : ℕ → ℕ → ℕ
block_count size block_size = if ltb 0 size then 1 + (size - 1) / block_size else 0

block_count_last : (n b : ℕ) → ltb 0 n ≡ true → n < b → block_count n b ≡ 1
block_count_last n b some_left h =
    let zero_blocks : (n - 1) / b ≡ 0 = div-eq_of_lt (omega arith) in rw some_left (omega arith)

block_count_step : (n b : ℕ) → 0 < b → b ≤ n → block_count n b ≡ suc (block_count (n - b) b)
block_count_step n b pos h =
    let some_left : ltb 0 n ≡ true = ground arith in
    elim (Bool-cases (ltb 0 (n - b))) [
      | inl more ↦
          let above : b ≤ n - 1 = ground arith in
          let same : n - 1 - b ≡ n - b - 1 = omega arith in
          let step : (n - 1) / b ≡ (n - b - 1) / b + 1 =
            div-eq-sub-div pos above ∙ ap (λ k. k / b + 1) same in
          rw (some_left, more) (omega arith)
      | inr last ↦
          let same : n ≡ b = ground arith in
          let small : (n - 1) / b ≡ 0 = div-eq_of_lt (omega arith) in
          rw (some_left, last) (omega arith)
    ]

-- The number of chunks, as `worker_proc` computes it for the size of the header.
pub length-chunks :
    (fuel block_size : ℕ) (content : Bytes)
    → 0 < block_size
    → length content < fuel
    → length (chunks fuel block_size content) ≡ block_count (length content) block_size
unfolding chunks
length-chunks zero block_size content pos more = absurd (omega arith)
length-chunks (suc fuel) block_size content pos more =
    elim (Bool-cases (leb block_size (length content))) [
      | inl full ↦
          let enough : block_size ≤ length content = ground arith in
          let less : length (drop block_size content) ≡ length content - block_size =
            length-drop block_size content in
          let rest = length-chunks fuel block_size (drop block_size content) pos (omega arith) in
          rw full (
            ap suc (rest ∙ ap (λ k. block_count k block_size) less)
            ∙ sym (block_count_step (length content) block_size pos enough))
      | inr short ↦ elim (Bool-cases (ltb 0 (length content))) [
        | inl some_left ↦
            rw (short, some_left)
              (sym (
                  block_count_last (length content) block_size some_left
                    (ltb_of_leb block_size (length content) short))
                ∙ rw some_left)
        | inr none_left ↦ rw (short, none_left)
      ]
    ]

module _ (sha : Sha1Hasher) (zlib : Zlib) (level block_size : ℕ) (pos : 0 < block_size) where
  -- The loop goes over the chunks, to the end of the file.
  pub block_loop-chunks :
      (fuel n : ℕ) (st : Blocks sha) (content s : Bytes)
      → length content ≡ n
      → n < fuel
      → block_loop sha zlib level fuel block_size n st (content ++ s)
        ≡ ok (foldl (compress_block sha zlib level) st (chunks fuel block_size content)) s
  unfolding block_loop chunks
  block_loop-chunks zero n st content s e more = absurd (omega arith)
  block_loop-chunks (suc fuel) n st content s e more = elim (Bool-cases (leb block_size n)) [
    | inl full ↦
        let enough : block_size ≤ length content = ground arith in
        let rest =
          block_loop-chunks fuel (n - block_size)
            (compress_block sha zlib level st (take block_size content)) (drop block_size content) s
            (omega (arith, length-drop block_size content)) (omega arith) in
        rw (e, full) (rw (read_exact-take block_size content s enough, ◌>>=◌) rest)
    | inr short ↦ elim (Bool-cases (ltb 0 n)) [
      | inl some_left ↦ rw (e, short, some_left) (rw (read_exact_lem n content s e, ◌>>=◌))
      | inr none_left ↦
          rw (e, short, none_left) (rw (nil_of_length content (e ∙ zero_of_ltb n none_left)))
    ]
  ]

module _ (sha : Sha1Hasher) (zlib : Zlib) (level : ℕ) where
  -- What the loop has gathered after some chunks.
  pub record Gathered (before after : Blocks sha) (cs : List Bytes) : Type 0 where
    pub out_is : after.out ≡ before.out ++ streams zlib level cs
    pub size_is : after.size ≡ before.size + length (streams zlib level cs)
    pub blocks_is : after.blocks ≡ before.blocks ++ blocks_from zlib level before.start_offset cs
    pub hasher_is : after.hasher ≡ sha.update before.hasher (streams zlib level cs)

  pub foldl-compress_block :
      (st : Blocks sha) (cs : List Bytes)
      → st.start_offset + length (streams zlib level cs) < 2 ^ 63
      → st.size + length (streams zlib level cs) < 2 ^ 63
      → Gathered st (foldl (compress_block sha zlib level) st cs) cs
  foldl-compress_block st [] fits small = record {
    out_is = sym (append-nil st.out);
    size_is = omega arith;
    blocks_is = sym (append-nil st.blocks);
    hasher_is = sym (sha.update_nil st.hasher);
  }
  foldl-compress_block st (c ∷ cs) fits small =
      let stream = zlib.compress level c in
      let all : length (stream ++ streams zlib level cs)
          ≡ length stream + length (streams zlib level cs) =
        length-append stream (streams zlib level cs) in
      let next = compress_block sha zlib level st c in
      let moved : add64 st.start_offset (length stream) ≡ st.start_offset + length stream =
        omega arith in
      let sized : add64 st.size (length stream) ≡ st.size + length stream = omega arith in
      let rest = foldl-compress_block next cs (omega arith) (omega arith) in
      record {
        out_is = rest.out_is ∙ append_assoc st.out stream (streams zlib level cs);
        size_is = rest.size_is ∙ omega arith;
        blocks_is = rest.blocks_is ∙ append_assoc st.blocks _ _ ∙ rw moved;
        hasher_is = rest.hasher_is ∙ sha.update-update st.hasher stream (streams zlib level cs);
      }
