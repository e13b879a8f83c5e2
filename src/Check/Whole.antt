-- ===== src/Check/Whole.antt =====
-- src/check.rs: `enqueue` and `check`. Each thread gets some of the records, in an order of its own.
use rust_u4pak.Common.{
  ℕ, ◌+◌, Bool, true, false, Option, none, some, List, [], ◌∷◌, ◌++◌, ltb, if◌then◌else◌, Bytes,
  bytes_eq, length,
}
use rust_u4pak.Io.{Error, Result, done, failed, not_unique, paths_not_found, Reader}
use rust_u4pak.Results.{◌>>=◌}
use rust_u4pak.Crypto.{Sha1Hasher}
use rust_u4pak.Text.{Text}
use rust_u4pak.Record.{Record}
use rust_u4pak.Index.Legacy.{Variant}
use rust_u4pak.Pak.{Pak}
use rust_u4pak.Filter.{Filter, from_paths, non_visited_paths}
use rust_u4pak.Filter.Selected.{visited_records}
use rust_u4pak.Check.Defs.{check_data, record_reader, check_record}

pub record CheckOptions : Type 0 where
  pub variant : Variant
  pub abort_on_error : Bool
  pub ignore_null_checksums : Bool
  pub paths : Option (List Text)

abbrev pub has : Bytes → List Bytes → Bool
has name [] = false
has name (n ∷ names) = let rest = has name names in if bytes_eq name n then true else rest

-- `enqueue`: how often a name comes again, and the first of these as the error when it aborts.
unfoldable pub enqueue : Bool → List Bytes → List Record → Result ℕ
unfolding bytes_eq
enqueue abort_on_error filenames [] = done 0
enqueue abort_on_error filenames (r ∷ records) =
    let rest = enqueue abort_on_error (r.filename ∷ filenames) records in
    if has r.filename filenames
    then (if abort_on_error
        then failed (not_unique r.filename)
        else (rest >>= λ error_count. done (error_count + 1)))
    else rest

module _ (sha : Sha1Hasher) (options : CheckOptions) (pak : Pak) (file : Bytes) where
  -- What a thread sends about the records that it receives, until it returns.
  unfoldable pub thread_errors : (Bytes → Reader Record) → List Record → Result (List Error)
  thread_errors read_record [] = done []
  thread_errors read_record (r ∷ records) =
      let rest = thread_errors read_record records in
      check_record sha options.abort_on_error options.ignore_null_checksums options.variant
        pak.version pak.index_offset read_record file r
      >>= λ report.
          if report.ended
          then done report.sent
          else (rest >>= λ errors. done (report.sent ++ errors))

  unfoldable pub all_errors : (Bytes → Reader Record) → List (List Record) → Result (List Error)
  unfolding thread_errors
  all_errors read_record [] = done []
  all_errors read_record (records ∷ threads) =
      let rest = all_errors read_record threads in
      thread_errors read_record records >>= λ errors. rest >>= λ more. done (errors ++ more)

  -- The loop over the results: their number, or the first of them when it aborts.
  unfoldable pub receive_errors : List Error → ℕ → Result ℕ
  receive_errors [] error_count = done error_count
  receive_errors (e ∷ errors) error_count =
      let rest = receive_errors errors (error_count + 1) in
      if options.abort_on_error then failed e else rest

  -- What was asked for and is not there.
  unfoldable pub not_found : Option Filter → ℕ → Result ℕ
  unfolding non_visited_paths
  not_found none error_count = done error_count
  not_found (some f) error_count =
      let missing = length (non_visited_paths f) in
      if ltb 0 missing
      then (if options.abort_on_error
          then failed (paths_not_found missing)
          else done (error_count + missing))
      else done error_count

  abbrev pub selected : Option (List Text) → List Record × Option Filter
  selected none = (pak.index.records, none)
  selected (some paths) =
      let (records, f) = visited_records (from_paths paths) pak.index.records in (records, some f)

  abbrev pub index_errors : Result {0} Unit → Result ℕ
  index_errors (done u) = done 0
  index_errors (failed e) = if options.abort_on_error then failed e else done 1

  -- `check`; `threads` are the records that each thread receives, out of those enqueued.
  unfoldable pub check : List (List Record) → Result ℕ
  check threads = do
    in_index ← index_errors (
        check_data sha options.ignore_null_checksums file pak.index_offset pak.index_size
          pak.index_sha1)
    read_record ← record_reader options.variant pak.version
    let (records, filter) = selected options.paths
    repeated ← enqueue options.abort_on_error [] records
    errors ← all_errors read_record threads
    error_count ← receive_errors errors (in_index + repeated)
    not_found filter error_count
