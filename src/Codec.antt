-- ===== src/Codec.antt =====
-- src/decode.rs and src/encode.rs: little-endian fields and counted sequences.
mod Word
pub mod RoundTrip
unfoldable pub use Word.*
use rust_u4pak.Common.{
  ℕ, zero, suc, ◌%◌, ◌^◌, Bool, true, false, not, List, [], ◌∷◌, ◌++◌, Bytes, length, ◌==◌, ◌≡◌,
  refl,
}
use rust_u4pak.Io.{Reader, ◌>>=◌, pure, read_exact}

-- `Decode` for `bool`, `u8`, `u32`, `u64`, `u128` and `[u8; N]`. The signed `i32` and `i64` are
-- read as their bit patterns.
unfoldable pub decode_uint : ℕ → Reader ℕ
unfolding read_exact
decode_uint n = do b ← read_exact n; pure (from_le_bytes b)

abbrev pub decode_u8 : Reader ℕ
decode_u8 = decode_uint 1

abbrev pub decode_u32 : Reader ℕ
decode_u32 = decode_uint 4

abbrev pub decode_u64 : Reader ℕ
decode_u64 = decode_uint 8

abbrev pub decode_u128 : Reader ℕ
decode_u128 = decode_uint 16

unfoldable pub decode_bool : Reader Bool
unfolding decode_uint
decode_bool = do b ← decode_uint 1; pure (not (b == 0))

abbrev pub decode_array : ℕ → Reader Bytes
decode_array = read_exact

-- `Encode` for the same types.
abbrev pub encode_u8 : ℕ → Bytes
encode_u8 = to_le_bytes 1

abbrev pub encode_u32 : ℕ → Bytes
encode_u32 = to_le_bytes 4

abbrev pub encode_u64 : ℕ → Bytes
encode_u64 = to_le_bytes 8

abbrev pub encode_array : Bytes → Bytes
encode_array b = b

-- `name: type [count]` of `decode!` and `value [count]` of `encode!`: a `u32` count, then the items.
module _ {A : Type 0} where
  unfoldable pub decode_items : Reader A → ℕ → Reader (List A)
  decode_items item zero = pure []
  decode_items item (suc n) = do x ← item; xs ← decode_items item n; pure (x ∷ xs)

  unfoldable pub decode_counted : Reader A → Reader (List A)
  unfolding decode_items
  decode_counted item = do n ← decode_u32; decode_items item n

  unfoldable pub encode_items : (A → Bytes) → List A → Bytes
  encode_items item [] = []
  encode_items item (x ∷ xs) = item x ++ encode_items item xs

  unfoldable pub encode_counted : (A → Bytes) → List A → Bytes
  unfolding encode_items
  encode_counted item xs = encode_u32 (length xs % 2 ^ 32) ++ encode_items item xs
