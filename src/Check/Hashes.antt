-- ===== src/Check/Hashes.antt =====
-- src/check.rs: `check_data` on the data at a place.
use rust_u4pak.Common.{
  ℕ, zero, suc, ◌+◌, ◌-◌, ◌^◌, ◌≤◌, ◌<◌, ◌≡◌, ◌∙◌, inl, inr, refl, arith, Bool, false, Bool-cases,
  ◌++◌, leb, if◌then◌else◌, Bytes, bytes_eq, length, take, drop, drop-append, ◌&&◌, ◌||◌,
}
use rust_u4pak.Io.{done, failed, ok, ◌>>=◌, read_exact_lem, checksum_mismatch}
use rust_u4pak.Crypto.{Sha1Hasher}
use rust_u4pak.Record.{null_sha1}
use rust_u4pak.Pack.{buffer_size}
use rust_u4pak.Pack.Chunks.{read_exact-take, take-drop, length-drop}
use rust_u4pak.Check.Defs.{hash_loop, check_data}

module _ (sha : Sha1Hasher) where
  hash_loop-append :
      (fuel n : ℕ) (h : sha.State) (content s : Bytes)
      → length content ≡ n
      → n < fuel
      → hash_loop sha fuel n h (content ++ s) ≡ ok (sha.update h content) s
  unfolding hash_loop
  hash_loop-append zero n h content s e more = absurd (omega arith)
  hash_loop-append (suc fuel) n h content s e more = elim (Bool-cases (leb buffer_size n)) [
    | inl full ↦
        let enough : buffer_size ≤ length content = ground arith in
        let rest =
          hash_loop-append fuel (n - buffer_size) (sha.update h (take buffer_size content))
            (drop buffer_size content) s (omega (arith, length-drop buffer_size content))
            (omega arith) in
        rw full (
          rw (read_exact-take buffer_size content s enough, ◌>>=◌)
            (rest ∙ rw (sha.update-update, take-drop)))
    | inr short ↦ rw short (rw (read_exact_lem n content s e, ◌>>=◌))
  ]

  -- check_data accepts data at a place exactly if its checksum is the one that is given, or the
  -- one that is given is null and null checksums are ignored; for data that ends before 2 ^ 63.
  pub check_data_lem :
      (ignore : Bool) (before content after checksum : Bytes)
      → length before + length content < 2 ^ 63
      → check_data sha ignore
          (before ++ (content ++ after))
          (length before)
          (length content)
          checksum
        ≡ (if (ignore && bytes_eq checksum null_sha1)
              || bytes_eq (sha.finish (sha.update sha.new content)) checksum
            then done tt
            else failed checksum_mismatch)
  unfolding check_data
  check_data_lem ignore before content after checksum fits =
      let seekable : leb (2 ^ 63) (length before) ≡ false = ground arith in
      let here = drop-append before (content ++ after) (length before) refl in
      let hash =
        hash_loop-append (suc (length content)) (length content) sha.new content after refl
          (omega arith) in
      elim (Bool-cases (ignore && bytes_eq checksum null_sha1)) [
        | inl ignored ↦ rw ignored
        | inr checked ↦ rw checked (rw (seekable, here) (rw hash))
      ]
