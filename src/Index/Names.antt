-- ===== src/Index/Names.antt =====
-- The names of the variants and the encodings: `TryFrom<&str>` of `Variant` in src/pak.rs and of
-- `Encoding` in src/index.rs.
use rust_u4pak.Common.{◌||◌, if◌then◌else◌, bytes_eq, ◌≡◌, refl}
use rust_u4pak.Common.Texts.{codes}
use rust_u4pak.Io.{Result, done, failed, illegal_variant, unsupported_encoding}
use rust_u4pak.Text.{Text}
use rust_u4pak.Sizes.{trim_left, trim_right, is_word}
use rust_u4pak.Paths.{Encoding, ascii, latin1, utf8}
use rust_u4pak.Index.Legacy.{Variant, standard, conan_exiles}
use rust_u4pak.Sort.Keys.{lower, lower_idem}

unfoldable pub variant_try_from : Text → Result Variant
unfolding bytes_eq trim_left trim_right
variant_try_from variant =
    let trimmed_variant = trim_right (trim_left variant) in
    if is_word (codes "standard") trimmed_variant
    then done standard
    else if is_word (codes "conan_exiles") trimmed_variant
        || is_word (codes "conanexiles") trimmed_variant
        || is_word (codes "conan exiles") trimmed_variant
    then done conan_exiles
    else failed illegal_variant

unfoldable pub encoding_try_from : Text → Result Encoding
unfolding bytes_eq
encoding_try_from encoding =
    if is_word (codes "utf-8") encoding || is_word (codes "utf8") encoding
    then done utf8
    else if is_word (codes "ascii") encoding
    then done ascii
    else if is_word (codes "latin1") encoding || is_word (codes "iso-8859-1") encoding
    then done latin1
    else failed unsupported_encoding

-- The case of the letters of an encoding makes no difference.
pub encoding_try_from-lower :
    (encoding : Text) → encoding_try_from (lower encoding) ≡ encoding_try_from encoding
unfolding encoding_try_from
encoding_try_from-lower encoding = rw (lower_idem encoding) refl
