-- ===== src/Check/Accepted.antt =====
-- src/check.rs: the archives that `check` accepts.
use rust_u4pak.Common.{◌≡◌, ◌↔◌, refl, Option, none, some, List, [], ◌∷◌, Bytes, All}
use rust_u4pak.Io.{done, Reader}
use rust_u4pak.Results.{◌>>=◌}
use rust_u4pak.Crypto.{Sha1Hasher}
use rust_u4pak.Text.{Text}
use rust_u4pak.Record.{Record}
use rust_u4pak.Pak.{Pak}
use rust_u4pak.Filter.Selected.{asked, visited_records-from_paths}
use rust_u4pak.Check.Defs.{nothing, check_data, record_reader, check_record}
use rust_u4pak.Check.Whole.{CheckOptions, thread_errors, all_errors, selected, check}
use rust_u4pak.Check.Clean.{AllFound, IsPassed-check, check-IsPassed}
use rust_u4pak.Check.Distinct.{
  AreNew, enqueue-AreNew, AreNew-enqueue, AreDistinct, AreDistinct-AreNew, AreNew-AreDistinct,
  lack_nothing,
}

module _ (sha : Sha1Hasher) (options : CheckOptions) (pak : Pak) (file : Bytes)
    (read_record : Bytes → Reader Record) where
  -- Nothing is sent about the record.
  abbrev pub IsClean : Record → Type 0
  IsClean r =
      check_record sha options.abort_on_error options.ignore_null_checksums options.variant
        pak.version pak.index_offset read_record file r
      ≡ done nothing

  thread_errors-IsClean :
      (records : List Record)
      → All IsClean records
      → thread_errors sha options pak file read_record records ≡ done []
  unfolding thread_errors
  thread_errors-IsClean [] h = refl
  thread_errors-IsClean (r ∷ records) (clean, h) =
      rw (clean, ◌>>=◌) (rw (thread_errors-IsClean records h, ◌>>=◌))

  all_errors-IsClean :
      (threads : List (List Record))
      → All (All IsClean) threads
      → all_errors sha options pak file read_record threads ≡ done []
  unfolding all_errors
  all_errors-IsClean [] h = refl
  all_errors-IsClean (records ∷ threads) (clean, h) =
      rw (thread_errors-IsClean records clean, ◌>>=◌) (rw (all_errors-IsClean threads h, ◌>>=◌))

  pub check-IsClean :
      (threads : List (List Record))
      → check_data sha options.ignore_null_checksums file pak.index_offset pak.index_size
          pak.index_sha1
        ≡ done tt
      → record_reader options.variant pak.version ≡ done read_record
      → options.paths ≡ none
      → AreNew [] pak.index.records
      → All (All IsClean) threads
      → check sha options pak file threads ≡ done 0
  check-IsClean threads index reader all new clean =
      IsPassed-check sha options pak file read_record threads reader record {
        index = index;
        repeated = rw all (enqueue-AreNew options.abort_on_error [] pak.index.records new);
        sent = all_errors-IsClean threads clean;
        found = rw all tt;
      }

  selected-asked :
      (paths : Option (List Text))
      → (selected sha options pak file paths).0 ≡ asked paths pak.index.records
  selected-asked none = refl
  selected-asked (some paths) = visited_records-from_paths paths pak.index.records

  -- For a version that it can read, check returns 0 exactly if the index passes check_data, no
  -- two of the records below the paths that are asked for have the same name, the threads send
  -- no error, and each of these paths was visited.
  pub check_lem :
      (threads : List (List Record))
      → record_reader options.variant pak.version ≡ done read_record
      → (check sha options pak file threads ≡ done 0) ↔ (
          (check_data sha options.ignore_null_checksums file pak.index_offset pak.index_size
              pak.index_sha1
            ≡ done tt)
          × AreDistinct (asked options.paths pak.index.records)
          × (all_errors sha options pak file read_record threads ≡ done [])
          × AllFound sha options pak file read_record
              (selected sha options pak file options.paths).1)
  check_lem threads reader =
      let names = selected-asked options.paths in
      (
        (λ accepted.
            let passed = check-IsPassed sha options pak file read_record threads accepted reader in
            let new = AreNew-enqueue options.abort_on_error [] _ passed.repeated in
            (
              passed.index,
              rw (← names) (AreNew-AreDistinct [] _ new).1,
              passed.sent,
              passed.found,
            )),
        (λ (index, distinct, sent, found).
            let records = (selected sha options pak file options.paths).0 in
            let new =
              AreDistinct-AreNew [] records (lack_nothing records) (rw (← names) at distinct) in
            IsPassed-check sha options pak file read_record threads reader record {
              index = index;
              repeated = enqueue-AreNew options.abort_on_error [] records new;
              sent = sent;
              found = found;
            }),
      )
