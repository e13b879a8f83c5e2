-- ===== src/Paths.antt =====
-- Texts in an index: `Encoding` and `read_path` of src/index.rs, `write_path` of src/pack.rs.
pub mod RoundTrip
use rust_u4pak.Common.{
  ℕ, zero, suc, ◌+◌, ◌-◌, ◌*◌, ◌%◌, ◌^◌, Bool, true, false, Option, none, some, List, [], ◌∷◌, ◌++◌,
  ltb, leb, ◌==◌, if◌then◌else◌, Bytes, length,
}
use rust_u4pak.Io.{
  Error, invalid_utf8, invalid_utf16, ascii_conversion, illegal_char, path_too_long, Result, done,
  failed, Reader, ◌>>=◌, lift, read_exact,
}
use rust_u4pak.Codec.{decode_u32, encode_u32}
use rust_u4pak.Text.{Text, as_bytes, from_utf8, from_utf16}

-- `Encoding`.
pub data Encoding : Type 0 where
  ascii latin1 utf8 : Encoding

-- The first element above `limit`, which the loops over bytes or characters stop at.
unfoldable pub first_above : ℕ → List ℕ → Option ℕ
first_above limit [] = none
first_above limit (c ∷ t) = if ltb limit c then some c else first_above limit t

abbrev decoded : Error → Option Text → Result Text
decoded e none = failed e
decoded e (some t) = done t

-- `Encoding::parse_vec`; `byte as char` is the code point of the same number.
unfoldable pub parse_vec : Encoding → Bytes → Result Text
unfolding first_above from_utf8
parse_vec utf8 buffer = decoded invalid_utf8 (from_utf8 buffer)
parse_vec ascii buffer = elim (first_above 0x7F buffer) [
  | none ↦ done buffer
  | some byte ↦ failed (ascii_conversion byte)
]
parse_vec latin1 buffer = done buffer

-- `position(|&x| x == 0)` and `truncate`.
unfoldable pub until_nul : List ℕ → List ℕ
until_nul [] = []
until_nul (c ∷ t) = if c == 0 then [] else c ∷ until_nul t

-- The loop that joins two bytes to a `u16`. The buffer has an even length.
unfoldable pub utf16_units : Bytes → List ℕ
utf16_units (a ∷ b ∷ s) = (a + 256 * b) ∷ utf16_units s
utf16_units _ = []

-- `read_path` once its `i32` length is read, as a bit pattern.
unfoldable pub read_path_body : Encoding → ℕ → Reader Text
unfolding read_exact until_nul utf16_units from_utf16 parse_vec
read_path_body encoding size =
    if leb (2 ^ 31) size
    then (do
      buf ← read_exact (2 * (2 ^ 32 - size))
      lift (decoded invalid_utf16 (from_utf16 (until_nul (utf16_units buf)))))
    else do buf ← read_exact size; lift (parse_vec encoding (until_nul buf))

unfoldable pub read_path : Encoding → Reader Text
unfolding read_path_body
read_path encoding = do size ← decode_u32; read_path_body encoding size

-- The size, the bytes and the final NUL. `bytes.len() > u32::MAX - 1` is refused.
abbrev sized : Bytes → Result Bytes
sized bytes =
    if ltb (2 ^ 32 - 2) (length bytes)
    then failed path_too_long
    else done (encode_u32 (length bytes + 1) ++ (bytes ++ 0 ∷ []))

abbrev checked : Option ℕ → Result Bytes → Result Bytes
checked none r = r
checked (some c) r = failed (illegal_char c)

-- `write_path`, as the bytes that it appends to the writer.
unfoldable pub write_path : Text → Encoding → Result Bytes
unfolding first_above as_bytes
write_path path utf8 = sized (as_bytes path)
write_path path ascii = checked (first_above 127 path) (sized (as_bytes path))
write_path path latin1 = checked (first_above 255 path) (sized path)
