-- ===== src/Index/Secondary.antt =====
-- src/index.rs: `read_records` and `read_secondary_index_records`, for paks since version 10.
use rust_u4pak.Common.{
  ℕ, zero, suc, ◌+◌, ◌-◌, ◌/◌, ◌%◌, ◌^◌, Bool, false, not, Option, none, some, List, [], ◌∷◌, ◌++◌,
  ◌==◌, ltb, if◌then◌else◌, Bytes, bytes_eq, drop,
}
use rust_u4pak.Io.{
  Result, done, failed, panic, ok, err, Action, Reader, ◌>>=◌, pure, fail, lift, attempt,
  read_exact, seek_start, from_here,
}
use rust_u4pak.Codec.{decode_u32, decode_u64, decode_array}
use rust_u4pak.Decrypt.{Cipher, decrypt}
use rust_u4pak.Text.{Text}
use rust_u4pak.Paths.{Encoding, read_path}
use rust_u4pak.Record.{Record}
use rust_u4pak.Record.Read.{read_v3}
use rust_u4pak.Record.Entry.{decode_entry}
use rust_u4pak.Index.Legacy.{read_named_records}

-- `SecondaryIndexInfo`; the signed offsets and sizes are bit patterns.
pub record SecondaryIndexInfo : Type 0 where
  pub has_path_hash_index : Bool
  pub path_hash_index_offset : ℕ
  pub path_hash_index_size : ℕ
  pub has_full_directory_index : Bool
  pub full_directory_index_offset : ℕ
  pub full_directory_index_size : ℕ
  pub encoded_record_info : Bytes

-- A secondary index: whether there is one, its offset and its size.
abbrev pub Location : Type 0
Location = Bool × ℕ × ℕ

-- A flag, and if it is set an offset, a size that is not -1, and a checksum that nobody reads.
unfoldable pub read_location : Reader Location
read_location = do
  present ← decode_u32
  if present == 0 then pure (false, 0, 0) else do
    offset ← decode_u64
    size ← decode_u64
    hash ← decode_array 20
    pure (not (size == 2 ^ 64 - 1), offset, size)

-- `vec![0u8; size]`, which panics above `isize::MAX`, and `read_exact`.
unfoldable pub read_buffer : ℕ → Reader Bytes
unfolding read_exact
read_buffer size = if ltb size (2 ^ 63) then read_exact size else fail panic

-- An `i32` as a `usize`.
abbrev sign_extended : ℕ → ℕ
sign_extended n = if ltb n (2 ^ 31) then n else n + (2 ^ 64 - 2 ^ 32)

unfoldable pub read_records : Encoding → Reader (SecondaryIndexInfo × List Record)
unfolding read_location read_buffer read_named_records
read_records encoding = do
  entry_count ← decode_u32
  path_hash_seed ← decode_u64
  path_hash ← read_location
  full_directory ← read_location
  pak_entries_size ← decode_u32
  pak_entries ← read_buffer (sign_extended pak_entries_size)
  file_count ← decode_u32
  records ← read_named_records encoding read_v3 file_count
  pure (
    record {
      has_path_hash_index = path_hash.0;
      path_hash_index_offset = path_hash.1;
      path_hash_index_size = path_hash.2;
      has_full_directory_index = full_directory.0;
      full_directory_index_offset = full_directory.1;
      full_directory_index_size = full_directory.2;
      encoded_record_info = pak_entries;
    },
    records,
  )

-- `Record::decode_entry` at a place of the encoded records; a failure is skipped.
unfoldable pub entry_at : Bytes → ℕ → Text → List Record
unfolding decode_entry
entry_at info entry name = elim (decode_entry name (drop entry info)) [
  | ok r rest ↦ r ∷ []
  | err e rest ↦ []
]

abbrev named_entry : Bytes → ℕ → Text → Result Text → List Record
named_entry info entry dir (done name) = entry_at info entry (dir ++ name)
named_entry info entry dir (failed e) = []

-- The files of one directory.
unfoldable pub directory_files : Encoding → Bytes → Text → ℕ → Reader (List Record)
unfolding entry_at
directory_files encoding info dir zero = pure []
directory_files encoding info dir (suc n) = do
  file_name ← attempt (read_path encoding)
  entry ← decode_u32
  records ← directory_files encoding info dir n
  pure (named_entry info entry dir file_name ++ records)

-- The root directory is not written in front of a file's name.
abbrev directory_prefix : Text → Text
directory_prefix p = if bytes_eq p (b'/' ∷ []) then [] else p

-- A directory whose path cannot be read is skipped, and so are no bytes of its files.
abbrev directory_body : Encoding → Bytes → Result Text → ℕ → Reader (List Record)
directory_body encoding info (done p) n = directory_files encoding info (directory_prefix p) n
directory_body encoding info (failed e) n = pure []

unfoldable pub directories : Encoding → Bytes → ℕ → Reader (List Record)
unfolding directory_files bytes_eq
directories encoding info zero = pure []
directories encoding info (suc n) = do
  path ← attempt (read_path encoding)
  file_count ← decode_u32
  files ← directory_body encoding info path file_count
  records ← directories encoding info n
  pure (files ++ records)

-- `format!("{:x}", hash)` of a `u64`, by its digits from the last.
hex_digit : ℕ → ℕ
hex_digit d = if ltb d 10 then b'0' + d else b'a' + (d - 10)

hex_digits : ℕ → ℕ → Text → Text
hex_digits zero n out = out
hex_digits (suc fuel) n out =
    let longer = hex_digits fuel (n / 16) (hex_digit (n % 16) ∷ out) in
    if n == 0 then out else longer

unfoldable pub hex : ℕ → Text
unfolding hex_digits hex_digit
hex n = if n == 0 then b'0' ∷ [] else hex_digits 16 n []

-- The entries of the path hash index.
unfoldable pub hashed_files : Bytes → ℕ → Reader (List Record)
unfolding entry_at hex
hashed_files info zero = pure []
hashed_files info (suc n) = do
  hash ← decode_u64
  entry ← decode_u32
  records ← hashed_files info n
  pure (entry_at info entry (hex hash) ++ records)

-- Runs a reader over a buffer of its own.
abbrev pub on_buffer {ℓ} : {S : Type 0} {A : Type ℓ} → Reader A → Bytes → Action S A
on_buffer m buffer s = elim (m buffer) [ ok a rest ↦ ok a s | err e rest ↦ err e s ]

abbrev pub decrypted : {S : Type 0} → Cipher → Option Bytes → Bytes → Action S Bytes
decrypted aes none s = pure s
decrypted aes (some key) s = lift (decrypt aes s key)

module _ (aes : Cipher) (file : Bytes) where
  -- The bytes of a secondary index, decrypted.
  unfoldable pub read_index_data : Option Bytes → ℕ → ℕ → Action ℕ Bytes
  unfolding read_buffer decrypt from_here
  read_index_data key offset size = do
    pos ← (if ltb size (2 ^ 63) then seek_start file offset else fail panic)
    buffer ← from_here file (read_exact size)
    decrypted aes key buffer

  unfoldable pub read_secondary_index_records :
      SecondaryIndexInfo → Option Bytes → Encoding → Action ℕ (List Record)
  unfolding read_index_data directories hashed_files
  read_secondary_index_records info key encoding =
      if info.has_full_directory_index
      then (do
        buffer ← read_index_data key info.full_directory_index_offset info.full_directory_index_size
        on_buffer
            (do dir_count ← decode_u32; directories encoding info.encoded_record_info dir_count)
            buffer)
      else if info.has_path_hash_index
      then (do
        buffer ← read_index_data key info.path_hash_index_offset info.path_hash_index_size
        on_buffer (do file_count ← decode_u32; hashed_files info.encoded_record_info file_count)
            buffer)
      else pure []
