-- ===== src/Codec/RoundTrip.antt =====
-- What `Encode` writes, `Decode` reads back, with any bytes behind it.
use rust_u4pak.Common.{
  ℕ, ◌%◌, ◌^◌, ◌<◌, ◌≡◌, refl, arith, List, [], ◌∷◌, ◌++◌, append_assoc, Bytes, length, All,
}
use rust_u4pak.Io.{Reader, ok, ◌>>=◌, read_exact_lem}
use rust_u4pak.Codec.{
  decode_uint, decode_items, decode_counted, encode_items, encode_counted, to_le_bytes,
  length-to_le_bytes, from_le_bytes-to_le_bytes,
}

pub decode_uint-to_le_bytes :
    (n x : ℕ) (s : Bytes) → x < 256 ^ n → decode_uint n (to_le_bytes n x ++ s) ≡ ok x s
unfolding decode_uint
decode_uint-to_le_bytes n x s h =
    rw (read_exact_lem n (to_le_bytes n x) s (length-to_le_bytes n x), ◌>>=◌)
      (rw (from_le_bytes-to_le_bytes n x h))

module _ {A : Type 0} {P : A → Type 0} (item : Reader A) (write : A → Bytes)
    (reads : (a : A) (s : Bytes) → P a → item (write a ++ s) ≡ ok a s) where
  decode_items-encode_items :
      (xs : List A) (s : Bytes)
      → All P xs
      → decode_items item (length xs) (encode_items write xs ++ s) ≡ ok xs s
  unfolding decode_items encode_items
  decode_items-encode_items [] s h = refl
  decode_items-encode_items (x ∷ xs) s (p, h) =
      rw append_assoc (rw (reads x _ p, ◌>>=◌) (rw (decode_items-encode_items xs s h, ◌>>=◌)))

  -- A counted sequence that fits a `u32` count is read back.
  pub decode_counted-encode_counted :
      (xs : List A) (s : Bytes)
      → length xs < 2 ^ 32
      → All P xs
      → decode_counted item (encode_counted write xs ++ s) ≡ ok xs s
  unfolding decode_counted encode_counted
  decode_counted-encode_counted xs s n h =
      let e : length xs % 2 ^ 32 ≡ length xs = omega arith in
      rw (append_assoc, e)
        (rw (decode_uint-to_le_bytes 4 (length xs) _ n, ◌>>=◌) (decode_items-encode_items xs s h))
