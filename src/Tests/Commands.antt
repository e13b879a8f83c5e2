-- ===== src/Tests/Commands.antt =====
-- Concrete inputs for src/bin/u4pak/args.rs, the options of src/bin/u4pak/main.rs and the numbers of
-- src/util.rs.
use rust_u4pak.Common.{◌≡◌, refl, some, [], ◌∷◌, bytes_eq}
use rust_u4pak.Io.{
  done, failed, unexpected_end, parse_int, no_threads, empty_argument, illegal_variant,
}
use rust_u4pak.Text.{as_bytes}
use rust_u4pak.Args.{parse_arg_file}
use rust_u4pak.Args.Quoted.{
  in_quotes, parse_arg_file-in_quotes, parse_arg_file-escaped, parse_arg_file-unclosed,
}
use rust_u4pak.Common.Texts.{codes}
use rust_u4pak.Commands.{get_threads, get_paths, parse_compression_method}
use rust_u4pak.Index.Names.{variant_try_from, encoding_try_from}
use rust_u4pak.Index.Legacy.{standard, conan_exiles}
use rust_u4pak.Paths.{latin1}
use rust_u4pak.Sizes.{
  parse_size, trim_left, trim_right, without_last, parse_digits, parse_suffix,
  parse_compression_level,
}

parse_arg_file-in_quotes_example :
    parse_arg_file (b'u' ∷ []) (in_quotes ((b'a' ∷ b' ' ∷ b'b' ∷ []) ∷ [] ∷ []))
    ≡ done ((b'u' ∷ []) ∷ (b'a' ∷ b' ' ∷ b'b' ∷ []) ∷ [] ∷ [])
unfolding as_bytes
parse_arg_file-in_quotes_example =
    parse_arg_file-in_quotes (b'u' ∷ []) ((b'a' ∷ b' ' ∷ b'b' ∷ []) ∷ [] ∷ [])
      (((refl, (refl, (refl, tt))), (refl, (refl, (refl, tt)))), ((tt, tt), tt))

parse_arg_file-escaped_example :
    parse_arg_file (b'u' ∷ []) (b'"' ∷ b'a' ∷ b'"' ∷ b'"' ∷ b'b' ∷ b'"' ∷ 0x0A ∷ [])
    ≡ done ((b'u' ∷ []) ∷ (b'"' ∷ b'b' ∷ []) ∷ [])
unfolding as_bytes
parse_arg_file-escaped_example =
    parse_arg_file-escaped (b'u' ∷ []) (b'a' ∷ []) (b'b' ∷ []) (refl, tt) ((refl, tt), (refl, tt))

-- A quote that is not closed.
parse_arg_file_open : parse_arg_file (b'u' ∷ []) (b'"' ∷ b'a' ∷ []) ≡ failed unexpected_end
parse_arg_file_open = parse_arg_file-unclosed (b'u' ∷ []) [] (b'a' ∷ []) tt (refl, tt)

parse_size_kilo : parse_size (b' ' ∷ b'2' ∷ b' ' ∷ b'K' ∷ b'B' ∷ []) ≡ done 2048
unfolding parse_size trim_left trim_right without_last parse_digits parse_suffix
parse_size_kilo = refl

-- 1024 ^ 7 does not fit.
parse_size_zetta : parse_size (b'3' ∷ b'Z' ∷ []) ≡ done 0
unfolding parse_size trim_left trim_right without_last parse_digits parse_suffix
parse_size_zetta = refl

parse_size_unit : parse_size (b'K' ∷ []) ≡ failed parse_int
unfolding parse_size trim_left trim_right without_last parse_digits parse_suffix
parse_size_unit = refl

seven : parse_compression_level (b'7' ∷ []) ≡ done 7
unfolding parse_compression_level bytes_eq parse_digits
seven = refl

threads_run : get_threads 8 (some (codes "Auto")) ≡ done 8
unfolding get_threads
threads_run = refl

no_threads_run : get_threads 8 (some (codes "0")) ≡ failed no_threads
unfolding get_threads
no_threads_run = refl

paths_run : get_paths (some (codes "a" ∷ [] ∷ [])) ≡ failed empty_argument
unfolding get_paths
paths_run = refl

method_run : parse_compression_method (codes "ZLIB") ≡ done 1
unfolding parse_compression_method
method_run = refl

encoding_run : encoding_try_from (codes "ISO-8859-1") ≡ done latin1
unfolding encoding_try_from
encoding_run = refl

variant_names :
    (variant_try_from (codes " Conan_Exiles\n") ≡ done conan_exiles)
    × (variant_try_from (codes "STANDARD") ≡ done standard)
    × (variant_try_from (codes "conan-exiles") ≡ failed illegal_variant)
unfolding variant_try_from
variant_names = (refl, refl, refl)
