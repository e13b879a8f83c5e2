-- ===== src/Pack/Footers.antt =====
-- The footer that `pack` writes, found and decoded by src/pak.rs.
use rust_u4pak.Common.{
  ℕ, ◌+◌, ◌-◌, ◌^◌, ◌<◌, ◌≡◌, ◌∙◌, ◌⊎◌, inl, inr, sym, arith, Bool-cases, false, [], ◌++◌,
  append-nil, Bytes, length, length-append, ◌==◌, leb,
}
use rust_u4pak.Io.{ok, Action, ◌>>=◌, fail, unknown_version, from_here, read_exact_lem}
use rust_u4pak.Io.Files.{from_here-tail, seek_end-tail}
use rust_u4pak.Codec.{encode_u32, encode_u64, length-to_le_bytes}
use rust_u4pak.Codec.RoundTrip.{decode_uint-to_le_bytes}
use rust_u4pak.Pak.{Footer, footer_size, pak_magic}
use rust_u4pak.Pak.Decode.{
  footer_v1, footer_fields, magic_and_version, decode_footer, probe, get_version,
}
use rust_u4pak.Pack.Archive.{footer_bytes}

-- The footer that versions 1 to 3 end with.
abbrev pub footer_at : ℕ → ℕ → ℕ → ℕ → Bytes → Footer
footer_at place version offset size hash = record {
  footer_offset = place;
  encryption_uuid = 0;
  encrypted = false;
  magic = pak_magic;
  version = version;
  index_offset = offset;
  index_size = size;
  index_sha1 = hash;
  frozen = false;
  compression = [];
}

module _ (version offset size : ℕ) (hash : Bytes) (hashed : length hash ≡ 20) where
  pub length-footer_bytes : length (footer_bytes version offset size hash) ≡ 44
  unfolding footer_bytes
  length-footer_bytes = omega (
    arith,
    length-append (encode_u32 pak_magic)
        (encode_u32 version ++ (encode_u64 offset ++ (encode_u64 size ++ hash))),
    length-append (encode_u32 version) (encode_u64 offset ++ (encode_u64 size ++ hash)),
    length-append (encode_u64 offset) (encode_u64 size ++ hash),
    length-append (encode_u64 size) hash,
    length-to_le_bytes 4 pak_magic,
    length-to_le_bytes 4 version,
    length-to_le_bytes 8 offset,
    length-to_le_bytes 8 size,
    hashed,
  )

  module _ (v_lt : version < 2 ^ 32) (offset_lt : offset < 2 ^ 64) (size_lt : size < 2 ^ 64) where
    footer_v1-footer_bytes :
        (place : ℕ)
        → footer_v1 place (footer_bytes version offset size hash)
          ≡ ok (footer_at place version offset size hash) []
    unfolding footer_v1 footer_bytes
    footer_v1-footer_bytes place =
        rw (decode_uint-to_le_bytes 4 pak_magic _ (omega arith), ◌>>=◌)
          (rw (decode_uint-to_le_bytes 4 version _ v_lt, ◌>>=◌)
            (rw (decode_uint-to_le_bytes 8 offset _ offset_lt, ◌>>=◌)
              (rw (decode_uint-to_le_bytes 8 size hash size_lt, ◌>>=◌)
                (let e = read_exact_lem 20 hash [] hashed in rw (rw append-nil at e, ◌>>=◌)))))

    -- Behind any bytes it is decoded, for a version below 4.
    pub decode_footer-footer_bytes :
        (front : Bytes) (pos : ℕ)
        → version < 4
        → decode_footer (front ++ footer_bytes version offset size hash) version pos
          ≡ ok (footer_at (length front) version offset size hash) (length front + 44)
    unfolding decode_footer
    decode_footer-footer_bytes front pos old =
        let tail = footer_bytes version offset size hash in
        let size_is : footer_size version ≡ length tail = ground (arith, length-footer_bytes) in
        let fields : footer_fields version (length front) ≡ footer_v1 (length front) =
          ground arith in
        let found = footer_v1-footer_bytes (length front) in
        rw (seek_end-tail front tail (footer_size version) pos size_is, ◌>>=◌)
          (rw fields
            (from_here-tail front tail (footer_v1 (length front)) found ∙ rw length-footer_bytes))

-- The four bytes at a distance from the end of the file are not the magic, or are not there.
abbrev pub Quiet : Bytes → ℕ → Type 0
Quiet file distance =
    (leb distance (length file) ≡ false)
    ⊎ ((m : ℕ) × (v : ℕ) × (q : ℕ) × (from_here file magic_and_version (length file - distance)
          ≡ ok (m, v) q)
        × ((m == pak_magic) ≡ false))

-- A probe that sees no magic leaves the search to the next one.
probe-Quiet :
    (file : Bytes) (distance : ℕ) (next : Action ℕ ℕ) (pos : ℕ)
    → Quiet file distance
    → (q : ℕ) × (probe file distance next pos ≡ next q)
unfolding probe
probe-Quiet file distance next pos (inl short) = (pos, rw (short, probe))
probe-Quiet file distance next pos (inr (m, v, q, read, other)) =
    elim (Bool-cases (leb distance (length file))) [
      | inl long ↦ (q, rw (long, probe) (rw (read, ◌>>=◌) (rw other)))
      | inr short ↦ (pos, rw (short, probe))
    ]

-- A probe at the start of the footer finds the version.
probe-found :
    (front : Bytes) (version : ℕ) (rest : Bytes) (distance : ℕ) (next : Action ℕ ℕ) (pos : ℕ)
    → version < 2 ^ 32
    → distance ≡ length (encode_u32 pak_magic ++ (encode_u32 version ++ rest))
    → (q : ℕ) × (probe
          (front ++ (encode_u32 pak_magic ++ (encode_u32 version ++ rest)))
          distance
          next
          pos
        ≡ ok version q)
unfolding probe
probe-found front version rest distance next pos small e =
    let tail = encode_u32 pak_magic ++ (encode_u32 version ++ rest) in
    let read : magic_and_version tail ≡ ok (pak_magic, version) rest =
      rw (decode_uint-to_le_bytes 4 pak_magic _ (omega arith), ◌>>=◌)
        (rw (decode_uint-to_le_bytes 4 version rest small, ◌>>=◌)) in
    (
      length front + (length tail - length rest),
      rw (seek_end-tail front tail distance pos e, probe)
          (rw (from_here-tail front tail magic_and_version read, ◌>>=◌)),
    )

-- The version of a file that ends with the footer of `pack` is found, unless one of the other
-- places where a magic is looked for happens to hold one.
pub get_version-footer_bytes :
    (front : Bytes) (version offset size : ℕ) (hash : Bytes) (pos : ℕ)
    → length hash ≡ 20
    → version < 2 ^ 32
    → Quiet (front ++ footer_bytes version offset size hash) 204
    → Quiet (front ++ footer_bytes version offset size hash) 205
    → Quiet (front ++ footer_bytes version offset size hash) 60
    → (q : ℕ) × (get_version (front ++ footer_bytes version offset size hash) pos ≡ ok version q)
unfolding get_version footer_bytes
get_version-footer_bytes front version offset size hash pos hashed small q10 q9 q7 =
    let file = front ++ footer_bytes version offset size hash in
    let (p1, e1) = probe-Quiet file 204 _ pos q10 in
    let (p2, e2) = probe-Quiet file 205 _ p1 q9 in
    let (p3, e3) = probe-Quiet file 204 _ p2 q10 in
    let (p4, e4) = probe-Quiet file 60 _ p3 q7 in
    let (q, e5) =
      probe-found front version (encode_u64 offset ++ (encode_u64 size ++ hash)) 44
        (fail unknown_version) p4 small
        (sym (length-footer_bytes version offset size hash hashed)) in
    (q, e1 ∙ e2 ∙ e3 ∙ e4 ∙ e5)
