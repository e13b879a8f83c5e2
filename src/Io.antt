-- ===== src/Io.antt =====
-- src/result.rs, and what the code uses of `std::io`: readers that fail, and sources that are
-- read to their end. The text of a message is not kept, only which message it is.
pub mod Files
use rust_u4pak.Common.{
  ℕ, zero, suc, ◌+◌, ◌-◌, [], ◌∷◌, ◌++◌, ◌≡◌, refl, Bytes, length, drop, ltb, leb, ◌^◌,
  if◌then◌else◌,
}

pub data Error : Type 0 where
  unexpected_eof invalid_seek : Error
  invalid_utf8 invalid_utf16 : Error
  ascii_conversion : ℕ → Error
  conan_version : ℕ → Error
  unsupported_version : ℕ → Error
  illegal_magic : ℕ → Error
  unknown_version : Error
  illegal_index : ℕ → ℕ → ℕ → Error
  index_bleeds : Error
  path_too_long : Error
  conan_writing : Error
  unsupported_method : ℕ → Error
  compression_version : Error
  not_unique : Bytes → Error
  illegal_char : ℕ → Error
  corrupt_stream missing_key : Error
  not_a_directory file_exists empty_path : Error
  checksum_mismatch metadata_mismatch size_differs data_bleeds : Error
  block_order block_start record_end : Error
  unknown_method : ℕ → Error
  inline_offset : ℕ → Error
  paths_not_found : ℕ → Error
  unexpected_end illegal_level parse_int illegal_sort illegal_spec : Error
  illegal_variant unsupported_encoding : Error
  empty_argument no_threads unsupported_method_name : Error
  panic : Error

-- `Result` of src/result.rs.
pub data Result {ℓ} (A : Type ℓ) : Type ℓ where
  done : A → Result A
  failed : Error → Result A

-- The result of an action on a state, with the state that is left, which a failure keeps too.
pub data Outcome {ℓ} (S : Type 0) (A : Type ℓ) : Type ℓ where
  ok : A → S → Outcome S A
  err : Error → S → Outcome S A

abbrev pub Action {ℓ} : Type 0 → Type ℓ → Type ℓ
Action S A = S → Outcome S A

-- A `Read`, whose state is the bytes that are left.
abbrev pub Reader {ℓ} : Type ℓ → Type ℓ
Reader A = Action Bytes A

infixl 5 ◌>>=◌ ◌>>◌
abbrev pub ◌>>=◌ {ℓ κ} :
    {S : Type 0} {A : Type ℓ} {B : Type κ} → Action S A → (A → Action S B) → Action S B
◌>>=◌ m f s = elim (m s) [ ok a s' ↦ f a s' | err e s' ↦ err e s' ]

abbrev pub ◌>>◌ {ℓ κ} :
    {S : Type 0} {A : Type ℓ} {B : Type κ} → Action S A → Action S B → Action S B
m >> k = m >>= λ _. k

abbrev pub pure {ℓ} : {S : Type 0} {A : Type ℓ} → A → Action S A
pure a s = ok a s

abbrev pub fail {ℓ} : {S : Type 0} {A : Type ℓ} → Error → Action S A
fail e s = err e s

abbrev pub lift {ℓ} : {S : Type 0} {A : Type ℓ} → Result A → Action S A
lift (done a) = pure a
lift (failed e) = fail e

-- `if let Ok(a) = m`, and an `Err` that is put aside.
abbrev pub attempt {ℓ} : {S : Type 0} {A : Type ℓ} → Action S A → Action S (Result A)
attempt m s = elim (m s) [ ok a s' ↦ ok (done a) s' | err e s' ↦ ok (failed e) s' ]

abbrev cons_byte : ℕ → Outcome Bytes Bytes → Outcome Bytes Bytes
cons_byte x (ok xs s) = ok (x ∷ xs) s
cons_byte x (err e s) = err e s

-- `Read::read_exact` into a buffer of `n` bytes; at the end of the input nothing is left.
unfoldable pub read_exact : ℕ → Reader Bytes
read_exact zero s = ok [] s
read_exact (suc n) [] = err unexpected_eof []
read_exact (suc n) (x ∷ s) = cons_byte x (read_exact n s)

pub read_exact-append : (xs s : Bytes) → read_exact (length xs) (xs ++ s) ≡ ok xs s
unfolding read_exact
read_exact-append [] s = refl
read_exact-append (x ∷ xs) s = rw (read_exact-append xs s)

pub read_exact_lem : (n : ℕ) (xs s : Bytes) → length xs ≡ n → read_exact n (xs ++ s) ≡ ok xs s
read_exact_lem n xs s h = rw (← h) (read_exact-append xs s)

-- A `Read + Seek` over `file`, whose state is the position.
module _ (file : Bytes) where
  -- `SeekFrom::Start(n)`; a file takes no offset that is negative as an `i64`.
  abbrev pub seek_start : ℕ → Action ℕ ℕ
  seek_start n pos = if ltb n (2 ^ 63) then ok n n else err invalid_seek pos

  -- `SeekFrom::End(-n)`, which may not lead in front of the start.
  abbrev pub seek_end : ℕ → Action ℕ ℕ
  seek_end n pos =
      if leb n (length file) then ok (length file - n) (length file - n) else err invalid_seek pos

  -- How far a reader that started at `pos` has come.
  abbrev pub advanced : ℕ → Bytes → ℕ
  advanced pos rest = pos + (length (drop pos file) - length rest)

  unfoldable pub from_here {ℓ} : {A : Type ℓ} → Reader A → Action ℕ A
  from_here m pos = elim (m (drop pos file)) [
    | ok a rest ↦ ok a (advanced pos rest)
    | err e rest ↦ err e (advanced pos rest)
  ]
