-- ===== src/Commands.antt =====
-- src/bin/u4pak/main.rs: what is read from the values of options. The values are those that the
-- parser of arguments found, and the number of processors is an argument.
use rust_u4pak.Common.{
  ℕ, ◌<◌, ◌≡◌, refl, arith, Bool, true, false, ◌||◌, Option, none, some, List, [], ◌∷◌, ◌==◌,
  if◌then◌else◌, bytes_eq,
}
use rust_u4pak.Common.Texts.{codes}
use rust_u4pak.Io.{Result, done, failed, empty_argument, no_threads, unsupported_method_name}
use rust_u4pak.Results.{◌>>=◌}
use rust_u4pak.Text.{Text}
use rust_u4pak.PakPath.{is_empty}
use rust_u4pak.Record.{compr_none, compr_zlib}
use rust_u4pak.Sizes.{is_word, parsed, parse_unsigned, parse_digits}

-- The loop of `get_paths`.
unfoldable pub collect_paths : List Text → Result (List Text)
collect_paths [] = done []
collect_paths (path ∷ arg_paths) =
    let rest = collect_paths arg_paths in
    if is_empty path then failed empty_argument else rest >>= λ paths. done (path ∷ paths)

-- `get_paths`.
unfoldable pub get_paths : Option (List Text) → Result (Option (List Text))
unfolding collect_paths
get_paths none = done none
get_paths (some []) = done none
get_paths (some (path ∷ arg_paths)) =
    collect_paths (path ∷ arg_paths) >>= λ paths. done (some paths)

-- `NonZeroUsize::new`, and 1 in place of `None`.
abbrev pub at_least_one : ℕ → ℕ
at_least_one n = if n == 0 then 1 else n

abbrev pub given_threads : ℕ → Result ℕ
given_threads threads = if threads == 0 then failed no_threads else done (at_least_one threads)

-- `get_threads`.
unfoldable pub get_threads : ℕ → Option Text → Result ℕ
unfolding bytes_eq parse_digits
get_threads num_cpus none = done (at_least_one num_cpus)
get_threads num_cpus (some threads) =
    if is_word (codes "auto") threads
    then done (at_least_one num_cpus)
    else parsed (parse_unsigned 64 threads) >>= given_threads

unfoldable pub parse_compression_method : Text → Result ℕ
unfolding bytes_eq
parse_compression_method value =
    if is_word (codes "none") value
    then done compr_none
    else if is_word (codes "zlib") value
    then done compr_zlib
    else failed unsupported_method_name

abbrev any_empty : List Text → Bool
any_empty [] = false
any_empty (path ∷ paths) = is_empty path || any_empty paths

put_in_front :
    (a b : Bool) (path : Text) (paths : List Text)
    → (if a
        then failed empty_argument
        else (if b then failed empty_argument else done paths) >>= λ ps. done (path ∷ ps))
      ≡ (if a || b then failed empty_argument else done (path ∷ paths))
put_in_front true b path paths = refl
put_in_front false true path paths = refl
put_in_front false false path paths = refl

-- The paths are taken as they are, unless one of them is empty.
pub collect_paths_lem :
    (paths : List Text)
    → collect_paths paths ≡ (if any_empty paths then failed empty_argument else done paths)
unfolding collect_paths
collect_paths_lem [] = refl
collect_paths_lem (path ∷ paths) =
    rw (collect_paths_lem paths) (put_in_front (is_empty path) (any_empty paths) path paths)

at_least_one_pos : (n : ℕ) → 0 < at_least_one n
at_least_one_pos n = ground arith

positive : (m n : ℕ) → done (at_least_one m) ≡ done n → 0 < n
positive m n h = let same : at_least_one m ≡ n = cc in rw (← same) (at_least_one_pos m)

given_threads-eq-done :
    (zero_threads : Bool) (threads n : ℕ)
    → (if zero_threads then failed no_threads else done (at_least_one threads)) ≡ done n
    → 0 < n
given_threads-eq-done true threads n h = cc
given_threads-eq-done false threads n h = positive threads n h

of_words :
    (num_cpus n : ℕ) (auto : Bool) (m : Result ℕ)
    → (if auto then done (at_least_one num_cpus) else m >>= given_threads) ≡ done n
    → 0 < n
of_words num_cpus n true m h = positive num_cpus n h
of_words num_cpus n false (done threads) h = given_threads-eq-done (threads == 0) threads n h
of_words num_cpus n false (failed e) h = cc

-- There is always a thread.
pub get_threads-eq-done :
    (num_cpus : ℕ) (o : Option Text) (n : ℕ) → get_threads num_cpus o ≡ done n → 0 < n
unfolding get_threads
get_threads-eq-done num_cpus none n h = positive num_cpus n h
get_threads-eq-done num_cpus (some threads) n h =
    of_words num_cpus n (is_word (codes "auto") threads) (parsed (parse_unsigned 64 threads)) h
