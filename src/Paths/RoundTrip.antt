-- ===== src/Paths/RoundTrip.antt =====
-- `read_path` reads what `write_path` wrote.
use rust_u4pak.Common.{
  ℕ, ◌+◌, ◌^◌, ◌<◌, ◌≡◌, ◌∙◌, refl, ap, arith, false, none, List, [], ◌∷◌, ◌++◌, append_assoc,
  Bytes, All, leb, length, length-append,
}
use rust_u4pak.Io.{done, ok, lift, ◌>>=◌, read_exact_lem}
use rust_u4pak.Codec.{encode_u32, length-to_le_bytes}
use rust_u4pak.Codec.RoundTrip.{decode_uint-to_le_bytes}
use rust_u4pak.Text.{Text, as_bytes, utf8_char}
use rust_u4pak.Text.RoundTrip.{IsText, from_utf8-as_bytes}
use rust_u4pak.Paths.{
  Encoding, ascii, latin1, utf8, first_above, parse_vec, until_nul, read_path_body, read_path,
  write_path,
}

-- No character is NUL.
abbrev pub NoNul : List ℕ → Type 0
NoNul = All (λ c. 0 < c)

NoNul-utf8_char : (c : ℕ) (s : Bytes) → 0 < c → NoNul s → NoNul (utf8_char c ++ s)
unfolding utf8_char
NoNul-utf8_char c s h hs = ground arith

NoNul-as_bytes : (t : Text) → NoNul t → NoNul (as_bytes t)
unfolding as_bytes
NoNul-as_bytes [] h = tt
NoNul-as_bytes (c ∷ t) (h, hs) = NoNul-utf8_char c (as_bytes t) h (NoNul-as_bytes t hs)

until_nul-NoNul : (s : Bytes) → NoNul s → until_nul (s ++ 0 ∷ []) ≡ s
unfolding until_nul
until_nul-NoNul [] h = refl
until_nul-NoNul (c ∷ s) (h, hs) = ground (arith, until_nul-NoNul s hs)

-- A sized, NUL-terminated buffer is read up to its NUL.
read_path_sized :
    (encoding : Encoding) (b s : Bytes)
    → NoNul b
    → length b + 1 < 2 ^ 31
    → read_path encoding ((encode_u32 (length b + 1) ++ (b ++ 0 ∷ [])) ++ s)
      ≡ lift (parse_vec encoding b) s
unfolding read_path read_path_body
read_path_sized encoding b s h fits = rw append_assoc (
    rw (decode_uint-to_le_bytes 4 (length b + 1) _ (omega arith), ◌>>=◌)
      (let small : leb (2 ^ 31) (length b + 1) ≡ false = ground arith in
        rw small (
          rw (read_exact_lem (length b + 1) (b ++ 0 ∷ []) s (length-append b (0 ∷ [])), ◌>>=◌)
            (rw (until_nul-NoNul b h)))))

-- ASCII characters are their own bytes.
as_bytes_of_ascii : (t : Text) → first_above 127 t ≡ none → as_bytes t ≡ t
unfolding as_bytes first_above utf8_char
as_bytes_of_ascii [] h = refl
as_bytes_of_ascii (c ∷ t) h = ground (arith, as_bytes_of_ascii t)

abbrev pub encoded : Encoding → Text → Bytes
encoded latin1 t = t
encoded _ t = as_bytes t

parse_vec-encoded :
    (encoding : Encoding) (path : Text) {bytes : Bytes}
    → IsText path
    → write_path path encoding ≡ done bytes
    → parse_vec encoding (encoded encoding path) ≡ done path
unfolding parse_vec write_path
parse_vec-encoded utf8 path h e = rw (from_utf8-as_bytes path h)
parse_vec-encoded latin1 path h e = refl
parse_vec-encoded ascii path h e = ground (arith, as_bytes_of_ascii path)

NoNul-encoded : (encoding : Encoding) (t : Text) → NoNul t → NoNul (encoded encoding t)
NoNul-encoded latin1 t h = h
NoNul-encoded utf8 t h = NoNul-as_bytes t h
NoNul-encoded ascii t h = NoNul-as_bytes t h

-- What is written, if it is written.
write_path-eq-done :
    (encoding : Encoding) (path : Text) {bytes : Bytes}
    → write_path path encoding ≡ done bytes
    → bytes ≡ encode_u32 (length (encoded encoding path) + 1) ++ (encoded encoding path ++ 0 ∷ [])
unfolding write_path
write_path-eq-done latin1 path e = ground arith
write_path-eq-done utf8 path e = ground arith
write_path-eq-done ascii path e = ground arith

-- The length of what is written: a `u32`, the encoded text and a NUL.
pub length-sized : (b : Bytes) → length (encode_u32 (length b + 1) ++ (b ++ 0 ∷ [])) ≡ length b + 5
length-sized b = omega (
  arith,
  length-append (encode_u32 (length b + 1)) (b ++ 0 ∷ []),
  length-to_le_bytes 4 (length b + 1),
  length-append b (0 ∷ []),
)

-- A path with no NUL that `write_path` accepts is read back in the same encoding, if its size is
-- not negative as an `i32`.
pub read_path-write_path :
    (encoding : Encoding) (path : Text) (s : Bytes) {bytes : Bytes}
    → IsText path
    → NoNul path
    → write_path path encoding ≡ done bytes
    → length bytes < 2 ^ 31
    → read_path encoding (bytes ++ s) ≡ ok path s
read_path-write_path encoding path s {bytes} text plain e fits =
    let same = write_path-eq-done encoding path e in
    let size : length bytes ≡ length (encoded encoding path) + 5 =
      ap length same ∙ length-sized (encoded encoding path) in
    rw same (
      read_path_sized encoding (encoded encoding path) s (NoNul-encoded encoding path plain)
        (omega arith)
      ∙ rw (parse_vec-encoded encoding path text e))
