-- ===== src/Mount/Slices.antt =====
-- src/mount.rs: `read` of a file that is not compressed, and slices of it.
use rust_u4pak.Common.{
  ℕ, zero, suc, ◌+◌, ◌-◌, ◌^◌, ◌<◌, ◌≤◌, ◌≡◌, ◌∙◌, inl, inr, refl, ap, arith, false, Bool-cases,
  List, [], ◌∷◌, ◌++◌, ltb, leb, ◌==◌, Bytes, length, take, drop, length-append, append-nil,
}
use rust_u4pak.Word64.{add64, sub64}
use rust_u4pak.Io.{done}
use rust_u4pak.Crypto.{ZlibReader}
use rust_u4pak.Record.{compr_none}
use rust_u4pak.Mount.Time.{pos}
use rust_u4pak.Mount.Inode.{FileData}
use rust_u4pak.Mount.Handlers.{reply}
use rust_u4pak.Mount.Reading.{min, read_exact_at, read_plain, read_file}

pub read_exact_at_lem :
    (bytes : Bytes) (n i : ℕ)
    → i + n < 2 ^ 63
    → n ≤ length (drop i bytes)
    → read_exact_at bytes n i ≡ done (reply (take n (drop i bytes)))
unfolding read_exact_at
read_exact_at_lem bytes zero i h k = refl
read_exact_at_lem bytes (suc n) i h k =
    let fits : leb (2 ^ 63) (suc n) ≡ false = ground arith in
    let some_is : (suc n == 0) ≡ false = ground arith in
    let seekable : leb (2 ^ 63) i ≡ false = ground arith in
    let inside : ltb (length (drop i bytes)) (suc n) ≡ false = ground arith in
    rw (fits, some_is, seekable, inside)

module _ {ℓ} {A : Type ℓ} where
  drop-append_le : (ys zs : List A) (i : ℕ) → i ≤ length ys → drop i (ys ++ zs) ≡ drop i ys ++ zs
  drop-append_le ys zs zero h = refl
  drop-append_le [] zs (suc i) h = absurd (omega arith)
  drop-append_le (y ∷ ys) zs (suc i) h = drop-append_le ys zs i (omega arith)

  pub drop-in :
      (xs ys zs : List A) (i : ℕ)
      → i ≤ length ys
      → drop (length xs + i) (xs ++ (ys ++ zs)) ≡ drop i ys ++ zs
  drop-in [] ys zs i h = let e : 0 + i ≡ i = omega arith in rw e (drop-append_le ys zs i h)
  drop-in (x ∷ xs) ys zs i h =
      let e : suc (length xs) + i ≡ suc (length xs + i) = omega arith in rw e (drop-in xs ys zs i h)

  pub length-drop : (xs : List A) (i : ℕ) → length (drop i xs) ≡ length xs - i
  length-drop xs zero = omega arith
  length-drop [] (suc i) = omega arith
  length-drop (x ∷ xs) (suc i) = omega (arith, length-drop xs i)

  pub take-min :
      (xs ys : List A) (n size : ℕ) → n ≡ min (length xs) size → take n (xs ++ ys) ≡ take size xs
  take-min [] ys zero zero h = refl
  take-min [] ys zero (suc size) h = refl
  take-min [] ys (suc n) size h = absurd (ground arith)
  take-min (x ∷ xs) ys zero zero h = refl
  take-min (x ∷ xs) ys zero (suc size) h = absurd (ground arith)
  take-min (x ∷ xs) ys (suc n) zero h = absurd (ground arith)
  take-min (x ∷ xs) ys (suc n) (suc size) h = ap (◌∷◌ x) (take-min xs ys n size (ground (arith, h)))

  pub take-least : (xs : List A) (n size : ℕ) → n ≡ min (length xs) size → take n xs ≡ take size xs
  take-least xs n size h = let e = take-min xs [] n size h in rw append-nil at e

  pub drop-all : (xs : List A) (i : ℕ) → length xs ≤ i → drop i xs ≡ []
  drop-all [] zero h = refl
  drop-all [] (suc i) h = refl
  drop-all (x ∷ xs) zero h = absurd (omega arith)
  drop-all (x ∷ xs) (suc i) h = drop-all xs i (omega arith)

  pub take-nil : (n : ℕ) → take {A = A} n [] ≡ []
  take-nil zero = refl
  take-nil (suc n) = refl

-- Where the file stands in the archive, and how much of it is asked for.
module _ (before content after : Bytes) (offset size : ℕ)
    (fits : length before + length content < 2 ^ 62) (small : size < 2 ^ 32)
    (inside : offset < length content) where
  abbrev asked : ℕ
  asked = min (length content - offset) size

  read_exact_at-slice :
      read_exact_at (before ++ (content ++ after)) asked (length before + offset)
      ≡ done (reply (take size (drop offset content)))
  read_exact_at-slice =
      let place = drop-in before content after offset (omega arith) in
      let left = length-drop content offset in
      let longer = length-append (drop offset content) after in
      read_exact_at_lem (before ++ (content ++ after)) asked (length before + offset) (ground arith)
        (rw place (ground (arith, left, longer)))
      ∙ ap (λ b. done (reply b))
          (rw place (take-min (drop offset content) after asked size (rw left refl)))

  read_plain-slice :
      (f : FileData)
      → f.offset ≡ length before
      → f.uncompressed_size ≡ length content
      → read_plain (before ++ (content ++ after)) f offset size
        ≡ done (reply (take size (drop offset content)))
  unfolding read_plain
  read_plain-slice f offset_is size_is =
      let start : add64 f.offset offset ≡ length before + offset = omega arith in
      let count : sub64
            (min (add64 f.offset f.uncompressed_size) (add64 (length before + offset) size))
            (length before + offset)
          ≡ asked =
        ground arith in
      rw start (rw count read_exact_at-slice)

-- `read` of a file that is not compressed, at any offset: the bytes of the file from there on, as
-- many as are asked for and there are.
pub read_file-plain :
    (zlib : ZlibReader) (f : FileData) (before content after : Bytes) (offset size : ℕ)
    → f.encrypted ≡ false
    → f.compression_method ≡ compr_none
    → f.offset ≡ length before
    → f.uncompressed_size ≡ length content
    → length before + length content < 2 ^ 62
    → size < 2 ^ 32
    → read_file zlib (before ++ (content ++ after)) f (pos offset) size
      ≡ done (reply (take size (drop offset content)))
unfolding read_file
read_file-plain zlib f before content after offset size open_is method offset_is size_is fits
      small =
    elim (Bool-cases (leb f.uncompressed_size offset)) [
      | inl behind ↦
          let nothing = drop-all content offset (ground arith) in
          rw open_is (rw behind (rw nothing (rw (take-nil size))))
      | inr inside ↦ rw open_is (
          rw inside (
            rw method (
              read_plain-slice before content after offset size fits small (ground arith) f
                offset_is size_is)))
    ]
