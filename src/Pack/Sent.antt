-- ===== src/Pack/Sent.antt =====
-- src/pack.rs: what `worker_proc` sends for a file stands for that file.
use rust_u4pak.Common.{
  ℕ, suc, ◌^◌, ◌<◌, ◌≡◌, inl, inr, refl, ap, arith, Bool-cases, Option, none, some, List, [], ◌∷◌,
  ◌++◌, append-nil, map, leb, Bytes, length, replicate,
}
use rust_u4pak.Io.{done, ok, ◌>>=◌, read_exact, read_exact_lem}
use rust_u4pak.Crypto.{Sha1Hasher, Zlib}
use rust_u4pak.Record.{Record, compr_none, compr_zlib, move_to}
use rust_u4pak.Index.Legacy.{standard}
use rust_u4pak.Record.Write.{sha1_field}
use rust_u4pak.Pak.{header_size}
use rust_u4pak.Pak.Sizes.{blocks_length}
use rust_u4pak.Pack.Defs.{Work, write_uncompressed}
use rust_u4pak.Pack.Worker.{base_header_size, Packed, packed_record, pack_plain, pack_whole}
use rust_u4pak.Pack.Chunks.{write_uncompressed_lem}
use rust_u4pak.Unpack.Records.{IsPacked}

pub length-map : {A B : Type 0} (f : A → B) (xs : List A) → length (map f xs) ≡ length xs
length-map f [] = refl
length-map f (x ∷ xs) = ap suc (length-map f xs)

-- The timestamp that a version keeps.
abbrev pub IsStamp : ℕ → Option ℕ → Type 0
IsStamp version timestamp =
    (version ≡ 1 → (time : ℕ) × (timestamp ≡ some time) × (time < 2 ^ 64))
    × (1 < version → timestamp ≡ none)

-- What the fields of a record say of its data and of the file.
pub record IsRecorded (sha : Sha1Hasher) (version : ℕ) (r : Record) (body content : Bytes)
    : Type 0 where
  pub uncompressed : r.uncompressed_size ≡ length content
  pub small : length content < 2 ^ 40
  pub plain_blocks : r.compression_method ≡ compr_none → r.compression_blocks ≡ none
  pub checksum : r.sha1 ≡ some (sha.finish (sha.update sha.new body))
  pub stamped : IsStamp version r.timestamp
  pub early : version < 3 → (r.compression_blocks ≡ none) × (r.compression_block_size ≡ 0)
  pub late :
      2 < version
      → (r.compression_block_size < 2 ^ 32)
        × (r.compression_blocks ≡ none → r.compression_method ≡ compr_none)

module _ (sha : Sha1Hasher) (zlib : Zlib) (version : ℕ) where
  -- A record and its data, which has zeros in the place of the header that the record will have.
  pub record IsSent (r : Record) (out content : Bytes) : Type 0 where
    pub header : ℕ
    pub body : Bytes
    pub out_is : out ≡ replicate header 0 ++ body
    pub packed : IsPacked zlib header r content body
    pub recorded : IsRecorded sha version r body content
    pub hashed : length (sha1_field r) ≡ 20
    pub few : blocks_length r.compression_blocks < 2 ^ 63
    pub header_is :
        (offset : ℕ) → header_size version standard (move_to version offset r) ≡ done header

module _ (sha : Sha1Hasher) (zlib : Zlib) (version base : ℕ)
    (based : base_header_size standard version ≡ done base) (old : version < 4) (work : Work)
    (content : Bytes) (fits : length content < 2 ^ 40) (timestamp : Option ℕ)
    (stamped : IsStamp version timestamp) where
  -- The value that a branch of the match assigns, as the record and the data that are sent.
  abbrev pub Sends : Packed → Type 0
  Sends p = IsSent sha zlib version (packed_record work (length content) timestamp p) p.out content

  header_size-plain :
      (r : Record) → r.compression_blocks ≡ none → header_size version standard r ≡ done base
  unfolding header_size base_header_size
  header_size-plain r none_is = rw none_is (ground arith)

  abbrev plain_packed : ℕ → Packed
  plain_packed block_size = record {
    size = length content;
    method = compr_none;
    blocks = none;
    block_size = block_size;
    sha1 = sha.finish (sha.update sha.new content);
    out = replicate base 0 ++ content;
  }

  abbrev whole_packed : ℕ → Packed
  whole_packed level = record {
    size = length (zlib.compress level content);
    method = compr_zlib;
    blocks = none;
    block_size = 0;
    sha1 = sha.finish (sha.update sha.new (zlib.compress level content));
    out = replicate base 0 ++ zlib.compress level content;
  }

  -- The block size that an uncompressed record is left with.
  abbrev IsLeft : ℕ → Type 0
  IsLeft block_size = (version < 3 → block_size ≡ 0) × (block_size < 2 ^ 32)

  pub pack_plain-Sends :
      (block_size : ℕ)
      → IsLeft block_size
      → (p : Packed) × (pack_plain sha base (length content) block_size content ≡ ok p []) × Sends p
  unfolding pack_plain move_to
  pack_plain-Sends block_size left =
      let e = write_uncompressed_lem sha base content [] in
      let written : write_uncompressed sha base (length content) content
          ≡ ok (replicate base 0 ++ content, sha.finish (sha.update sha.new content)) [] =
        rw append-nil at e in
      (
        plain_packed block_size,
        rw (written, ◌>>=◌),
        record {
          header = base;
          body = content;
          out_is = refl;
          packed = record {
            at_start = refl;
            plain = refl;
            size_is = refl;
            holds = inl (refl, refl);
          };
          recorded = record {
            uncompressed = refl;
            small = fits;
            plain_blocks = λ h. refl;
            checksum = refl;
            stamped = stamped;
            early = λ h. (refl, left.0 h);
            late = λ h. (left.1, λ k. refl);
          };
          hashed = sha.length-finish _;
          few = omega arith;
          header_is = λ offset. header_size-plain _ (ground arith);
        },
      )

  pub pack_whole-Sends :
      (level : ℕ)
      → version < 3
      → (p : Packed) × (s : Bytes) × (pack_whole sha zlib base level content content ≡ ok p s)
        × Sends p
  unfolding pack_whole move_to
  pack_whole-Sends level below =
      let e = read_exact_lem (length content) content [] refl in
      let read : read_exact (length content) content ≡ ok content [] = rw append-nil at e in
      elim (Bool-cases (leb (length content) (length (zlib.compress level content)))) [
        | inl larger ↦
            let (p, plain, sends) = pack_plain-Sends 0 (λ h. refl, omega arith) in
            (p, [], rw (read, ◌>>=◌) (rw larger plain), sends)
        | inr smaller ↦ (
          whole_packed level,
          [],
          rw (read, ◌>>=◌) (rw smaller),
          record {
            header = base;
            body = zlib.compress level content;
            out_is = refl;
            packed = record {
              at_start = refl;
              plain = refl;
              size_is = refl;
              holds = inr (inl (level, refl, refl, refl));
            };
            recorded = record {
              uncompressed = refl;
              small = fits;
              plain_blocks = λ h. refl;
              checksum = refl;
              stamped = stamped;
              early = λ h. (refl, refl);
              late = λ h. absurd (omega (arith, h, below));
            };
            hashed = sha.length-finish _;
            few = omega arith;
            header_is = λ offset. header_size-plain _ (ground arith);
          },
        )
      ]
