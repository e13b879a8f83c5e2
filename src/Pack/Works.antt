-- ===== src/Pack/Works.antt =====
-- src/pack.rs: `worker_proc` on one item of work.
use rust_u4pak.Common.{
  ℕ, ◌^◌, ◌<◌, ◌≡◌, ◌∙◌, ◌⊎◌, inl, inr, refl, arith, true, false, ◌||◌, Bool-cases, Option, none,
  some, [], ltb, leb, ◌==◌, Bytes, length,
}
use rust_u4pak.Io.{done, ok, ◌>>=◌}
use rust_u4pak.Crypto.{Sha1Hasher, Zlib}
use rust_u4pak.Record.{Record, compr_none, compr_zlib, unwrap_or}
use rust_u4pak.Index.Legacy.{standard}
use rust_u4pak.Pack.Defs.{PackOptions, SourceFile, Work}
use rust_u4pak.Pack.Worker.{
  base_header_size, Packed, sent, packed_record, limited_block_size, pack_content, outgoing,
  pack_file, pack_opened, process_work,
}
use rust_u4pak.Pack.Sent.{IsStamp, IsSent, pack_plain-Sends, pack_whole-Sends}
use rust_u4pak.Pack.SentBlocks.{pack_blocks-Sends}

-- The values of the options that their types allow, for the versions that can be written.
pub record Allows (options : PackOptions) (work : Work) : Type 0 where
  pub written : options.version < 4
  pub method : (work.compression_method ≡ compr_none) ⊎ (work.compression_method ≡ compr_zlib)
  pub min_size : 0 < options.compression_min_size
  pub block_size : 0 < unwrap_or work.path.compression_block_size options.compression_block_size
  pub block_size_lt :
      unwrap_or work.path.compression_block_size options.compression_block_size < 2 ^ 32

limited_block_size-pos :
    (sha : Sha1Hasher) (zlib : Zlib) (block_size size : ℕ)
    → 0 < block_size
    → 0 < size
    → block_size < 2 ^ 32
    → 0 < limited_block_size sha zlib block_size size
limited_block_size-pos sha zlib block_size size pos some_size fits = ground arith

limited_block_size_lt :
    (sha : Sha1Hasher) (zlib : Zlib) (block_size size : ℕ)
    → block_size < 2 ^ 32
    → limited_block_size sha zlib block_size size < 2 ^ 32
limited_block_size_lt sha zlib block_size size fits = ground arith

module _ (sha : Sha1Hasher) (zlib : Zlib) (options : PackOptions) (work : Work) (base : ℕ)
    (based : base_header_size standard options.version ≡ done base) (allows : Allows options work)
    (f : SourceFile) (fits : length f.content < 2 ^ 40) where
  pack_content-Sends :
      (timestamp : Option ℕ) (stamped : IsStamp options.version timestamp)
      → (p : Packed) × (s : Bytes) × (pack_content sha zlib options work.path base
            work.compression_method f.content f.content
          ≡ ok (done p) s)
        × IsSent sha zlib options.version
            (packed_record work (length f.content) timestamp p)
            p.out
            f.content
  unfolding pack_content
  pack_content-Sends timestamp stamped =
      let level = unwrap_or work.path.compression_level options.compression_level in
      elim (Bool-cases (
        (work.compression_method == compr_none)
        || ltb (length f.content) options.compression_min_size)) [
          | inl stored ↦
              let (p, e, sends) =
                pack_plain-Sends sha zlib options.version base based allows.written work f.content
                  fits timestamp stamped 0 (λ h. refl, omega arith) in
              (p, [], rw stored (rw (e, ◌>>=◌)), sends)
          | inr compressed ↦
              let zlib_method : (work.compression_method == compr_zlib) ≡ true =
                ground (arith, allows.method) in
              elim (Bool-cases (leb options.version 2)) [
                | inl whole ↦
                    let (p, s, e, sends) =
                      pack_whole-Sends sha zlib options.version base based allows.written work
                        f.content fits timestamp stamped level (ground arith) in
                    (p, s, rw (compressed, zlib_method, whole) (rw (e, ◌>>=◌)), sends)
                | inr blocks ↦
                    let some_size : 0 < length f.content = ground (arith, allows.min_size) in
                    let three : options.version ≡ 3 = ground (arith, allows.written) in
                    let pos =
                      limited_block_size-pos sha zlib
                        (unwrap_or work.path.compression_block_size options.compression_block_size)
                        (length f.content) allows.block_size some_size allows.block_size_lt in
                    let (p, s, e, sends) =
                      pack_blocks-Sends sha zlib options.version base based allows.written work
                        f.content fits timestamp stamped three level _ pos
                        (limited_block_size_lt sha zlib
                          (unwrap_or work.path.compression_block_size
                            options.compression_block_size)
                          (length f.content) allows.block_size_lt) in
                    (p, s, rw (compressed, zlib_method, blocks) (rw (e, ◌>>=◌)), sends)
              ]
        ]

  pack_file-IsSent :
      (timestamp : Option ℕ) (stamped : IsStamp options.version timestamp)
      → (r : Record) × (out : Bytes) × (pack_file sha zlib options work base f timestamp
          ≡ sent r out)
        × (r.filename ≡ work.filename)
        × IsSent sha zlib options.version r out f.content
  unfolding pack_file
  pack_file-IsSent timestamp stamped =
      let (p, s, e, sends) = pack_content-Sends timestamp stamped in
      (packed_record work (length f.content) timestamp p, p.out, rw (e, outgoing), refl, sends)

  process_work-first :
      (time : ℕ)
      → work.opened ≡ done f
      → (options.version == 1) ≡ true
      → f.created ≡ done time
      → process_work sha zlib options base work ≡ pack_file sha zlib options work base f (some time)
  unfolding process_work pack_opened
  process_work-first time opened first created = rw opened (rw (first, created))

  process_work-later :
      work.opened ≡ done f
      → (options.version == 1) ≡ false
      → process_work sha zlib options base work ≡ pack_file sha zlib options work base f none
  unfolding process_work pack_opened
  process_work-later opened later = rw opened (rw later)

  -- For every file of less than 2 ^ 40 bytes that is opened, and of which version 1 can tell the
  -- time as a u64, a worker sends a record of its name and data that stand for its content; the
  -- record has the size and the checksum, and in the fields that its version does not keep the
  -- values that are read. The method is none or zlib, the version at most 3, and the options are
  -- in the range of their types.
  pub process_work-IsSent :
      work.opened ≡ done f
      → (time : ℕ) → (options.version ≡ 1 → (f.created ≡ done time) × (time < 2 ^ 64))
      → (r : Record) × (out : Bytes) × (process_work sha zlib options base work ≡ sent r out)
        × (r.filename ≡ work.filename)
        × IsSent sha zlib options.version r out f.content
  process_work-IsSent opened time created = elim (Bool-cases (options.version == 1)) [
    | inl first ↦
        let one : options.version ≡ 1 = ground arith in
        let (r, out, e, named, sends) =
          pack_file-IsSent (some time)
            (λ h. (time, refl, (created one).1), λ h. absurd (omega (arith, h, one))) in
        (r, out, process_work-first time opened first (created one).0 ∙ e, named, sends)
    | inr later ↦
        let (r, out, e, named, sends) =
          pack_file-IsSent none (λ h. absurd (ground (arith, h, later)), λ h. refl) in
        (r, out, process_work-later opened later ∙ e, named, sends)
  ]
