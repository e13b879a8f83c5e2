-- ===== src/Pack/Placed.antt =====
-- src/pack.rs: `append_record` writes the header of a record in place of the zeros that were kept for it.
use rust_u4pak.Common.{
  ℕ, ◌+◌, ◌^◌, ◌<◌, ◌≡◌, ◌∙◌, inl, inr, refl, sym, ap, arith, true, Bool-cases, Option, none, some,
  List, [], ◌∷◌, ◌++◌, ltb, leb, ◌==◌, Bytes, length, length-append, length-replicate, drop,
  drop-append, replicate, map,
}
use rust_u4pak.Word64.{add64}
use rust_u4pak.Io.{Error, Result, done, failed}
use rust_u4pak.Results.{◌>>=◌}
use rust_u4pak.Crypto.{Sha1Hasher, Zlib}
use rust_u4pak.Record.{Record, CompressionBlock, move_to, move_block, option_map}
use rust_u4pak.Record.Write.{sha1_field, write_v1_inline, write_v2_inline, write_v3_inline}
use rust_u4pak.Index.Legacy.{standard}
use rust_u4pak.Pak.{header_size}
use rust_u4pak.Pak.Sizes.{blocks_length, header_size-write_inline}
use rust_u4pak.Pack.Archive.{inline_writer, Written, splice, append_record}
use rust_u4pak.Pack.Sent.{IsSent, length-map}

pub done_eq : {A : Type 0} {a b : A} → ◌≡◌ {A = Result A} (done a) (done b) → a ≡ b
done_eq e = ground arith

pub not_done : {A : Type 0} {e : Error} {a : A} → ¬ (◌≡◌ {A = Result A} (failed e) (done a))
not_done h = ground arith

moved_blocks :
    (o : Option (List CompressionBlock)) (f : CompressionBlock → CompressionBlock)
    → blocks_length (option_map (map f) o) ≡ blocks_length o
moved_blocks none f = refl
moved_blocks (some bs) f = omega (arith, length-map f bs)

module _ (version : ℕ) (write : Record → Bytes)
    (writer : inline_writer standard version ≡ done write) (sha : Sha1Hasher) (zlib : Zlib) where
  header_size-writer :
      (r : Record)
      → length (sha1_field r) ≡ 20
      → blocks_length r.compression_blocks < 2 ^ 63
      → header_size version standard r ≡ done (length (write r))
  unfolding inline_writer
  header_size-writer r hashed few = elim (Bool-cases (version == 1)) [
    | inl is_one ↦
        let one : version ≡ 1 = ground arith in
        let same : write_v1_inline ≡ write = done_eq (rw is_one at writer) in
        rw (one, ← same) (header_size-write_inline r hashed few).0
    | inr not_one ↦ elim (Bool-cases (version == 2)) [
      | inl is_two ↦
          let two : version ≡ 2 = ground arith in
          let same : write_v2_inline ≡ write = done_eq (rw (not_one, is_two) at writer) in
          rw (two, ← same) (header_size-write_inline r hashed few).1
      | inr not_two ↦ elim (Bool-cases (version == 3)) [
        | inl is_three ↦
            let three : version ≡ 3 = ground arith in
            let same : write_v3_inline ≡ write =
              done_eq (rw (not_one, not_two, is_three) at writer) in
            rw (three, ← same) (header_size-write_inline r hashed few).2
        | inr not_three ↦ absurd (not_done (rw (not_one, not_two, not_three) at writer))
      ]
    ]
  ]

  blocks_length-move_to :
      (offset : ℕ) (r : Record)
      → blocks_length (move_to version offset r).compression_blocks
        ≡ blocks_length r.compression_blocks
  unfolding move_to
  blocks_length-move_to offset r = elim (Bool-cases (ltb version 7)) [
    | inl old ↦ rw old (moved_blocks r.compression_blocks (move_block r.offset offset))
    | inr new ↦ rw new
  ]

  -- The header that is written is as long as the zeros in front of the data.
  pub length-header :
      (r : Record) {out content : Bytes} (sends : IsSent sha zlib version r out content)
      (offset : ℕ)
      → length (write (move_to version offset r)) ≡ sends.header
  unfolding move_to
  length-header r sends offset = done_eq (
      sym (
        header_size-writer (move_to version offset r) sends.hashed
          (omega (arith, blocks_length-move_to offset r, sends.few)))
      ∙ sends.header_is offset)

  splice-IsSent :
      (head : Bytes) (r : Record) {out content : Bytes}
      (sends : IsSent sha zlib version r out content)
      → length head ≡ sends.header
      → splice head out ≡ done (head ++ sends.body)
  unfolding splice
  splice-IsSent head r {out} sends same =
      let zeros : length (replicate {A = ℕ} sends.header 0) ≡ sends.header =
        length-replicate {A = ℕ} sends.header 0 in
      let all : length out ≡ sends.header + length sends.body =
        ap length sends.out_is
        ∙ length-append (replicate sends.header 0) sends.body
        ∙ ap (λ n. n + length sends.body) zeros in
      let enough : leb (length head) (length out) ≡ true = ground arith in
      rw enough (
        ap (λ s. done (head ++ drop (length head) s)) sends.out_is
        ∙ rw (drop-append (replicate sends.header 0) sends.body (length head) (same ∙ sym zeros)))

  -- A result that is received: its header is written in place of the zeros, behind what is there.
  pub append_record-IsSent :
      (w : Written) (r : Record) {out content : Bytes}
      (sends : IsSent sha zlib version r out content)
      → w.data_size ≡ length w.out
      → length w.out + length out < 2 ^ 63
      → let moved = move_to version (length w.out) r in
        append_record write version w r out
        ≡ done (record {
          out = w.out ++ (write moved ++ sends.body);
          data_size = length (w.out ++ (write moved ++ sends.body));
          records = w.records ++ moved ∷ [];
        })
  unfolding append_record
  append_record-IsSent w r {out} {content} sends size_is fits =
      let moved = move_to version (length w.out) r in
      let same = length-header r {content = content} sends (length w.out) in
      let spliced = splice-IsSent (write moved) r sends same in
      let zeros : length (replicate {A = ℕ} sends.header 0) ≡ sends.header =
        length-replicate {A = ℕ} sends.header 0 in
      let all : length out ≡ sends.header + length sends.body =
        ap length sends.out_is
        ∙ length-append (replicate sends.header 0) sends.body
        ∙ ap (λ n. n + length sends.body) zeros in
      let size : add64 (length w.out) (length (write moved ++ sends.body))
          ≡ length (w.out ++ (write moved ++ sends.body)) =
        omega (
          arith,
          all,
          same,
          fits,
          length-append w.out (write moved ++ sends.body),
          length-append (write moved) sends.body,
        ) in
      rw size_is (rw (spliced, ◌>>=◌) (rw size))
