-- ===== src/Sizes.antt =====
-- src/util.rs: `parse_size` and `parse_compression_level`, with what they use of Rust's `str`.
use rust_u4pak.Common.{
  ℕ, zero, suc, ◌+◌, ◌-◌, ◌*◌, ◌^◌, ◌<◌, ◌≡◌, inl, inr, arith, Bool, true, false, Bool-cases, ◌&&◌,
  ◌||◌, Option, none, some, List, [], ◌∷◌, ltb, leb, ◌==◌, if◌then◌else◌, bytes_eq, map,
}
use rust_u4pak.Word64.{mul64}
use rust_u4pak.Io.{Result, done, failed, illegal_level, parse_int}
use rust_u4pak.Results.{◌>>=◌}
use rust_u4pak.Text.{Text}

-- `str::parse` of an unsigned integer of `w` bits: digits, behind a plus sign or not.
abbrev pub is_digit : ℕ → Bool
is_digit c = leb b'0' c && leb c b'9'

unfoldable pub parse_digits : ℕ → ℕ → Text → Option ℕ
parse_digits w n [] = some n
parse_digits w n (c ∷ t) =
    let rest = parse_digits w (n * 10 + (c - b'0')) t in
    if is_digit c && ltb (n * 10 + (c - b'0')) (2 ^ w) then rest else none

abbrev pub parse_unsigned : ℕ → Text → Option ℕ
parse_unsigned w [] = none
parse_unsigned w (c ∷ []) = if c == b'+' then none else parse_digits w 0 (c ∷ [])
parse_unsigned w (c ∷ d ∷ t) =
    if c == b'+' then parse_digits w 0 (d ∷ t) else parse_digits w 0 (c ∷ d ∷ t)

-- `char::is_whitespace`.
abbrev pub is_whitespace : ℕ → Bool
is_whitespace c =
    (leb 0x09 c && leb c 0x0D)
    || (c == 0x20)
    || (c == 0x85)
    || (c == 0xA0)
    || (c == 0x1680)
    || (leb 0x2000 c && leb c 0x200A)
    || (c == 0x2028)
    || (c == 0x2029)
    || (c == 0x202F)
    || (c == 0x205F)
    || (c == 0x3000)

-- `trim_start` and `trim_end`.
unfoldable pub trim_left : Text → Text
trim_left [] = []
trim_left (c ∷ t) = let rest = trim_left t in if is_whitespace c then rest else c ∷ t

abbrev pub cons_unless : Bool → ℕ → Text → Text
cons_unless blank c [] = if blank then [] else c ∷ []
cons_unless blank c (d ∷ t) = c ∷ d ∷ t

unfoldable pub trim_right : Text → Text
trim_right [] = []
trim_right (c ∷ t) = cons_unless (is_whitespace c) c (trim_right t)

-- A text without the character at its end, if it ends with it.
unfoldable pub without_last : ℕ → Text → Option Text
without_last c [] = none
without_last c (d ∷ []) = if c == d then some [] else none
without_last c (d ∷ e ∷ t) = elim (without_last c (e ∷ t)) [
  | none ↦ none
  | some rest ↦ some (d ∷ rest)
]

abbrev pub parsed : Option ℕ → Result ℕ
parsed none = failed parse_int
parsed (some n) = done n

-- `* 1024`, so many times.
abbrev pub times_1024 : ℕ → ℕ → ℕ
times_1024 zero n = n
times_1024 (suc k) n = mul64 (times_1024 k n) 1024

-- The branches of `parse_size`, each with its suffix.
unfoldable pub parse_suffix : List ℕ → ℕ → Text → Result ℕ
unfolding without_last trim_right parse_digits
parse_suffix [] k value = parsed (parse_unsigned 64 value)
parse_suffix (c ∷ suffixes) k value =
    let rest = parse_suffix suffixes (k + 1) value in
    elim (without_last c value) [
      | some front ↦ parsed (parse_unsigned 64 (trim_right front)) >>= λ n. done (times_1024 k n)
      | none ↦ rest
    ]

abbrev pub size_suffixes : List ℕ
size_suffixes = b'K' ∷ b'M' ∷ b'G' ∷ b'T' ∷ b'P' ∷ b'E' ∷ b'Z' ∷ b'Y' ∷ []

abbrev pub or_whole : Option Text → Text → Text
or_whole none value = value
or_whole (some front) value = front

unfoldable pub parse_size : Text → Result ℕ
unfolding trim_left parse_suffix
parse_size value =
    let trimmed = trim_right (trim_left value) in
    parse_suffix size_suffixes 1 (or_whole (without_last b'B' trimmed) trimmed)

-- `eq_ignore_ascii_case`.
abbrev pub to_ascii_lowercase : ℕ → ℕ
to_ascii_lowercase c = if leb b'A' c && leb c b'Z' then c + 32 else c

abbrev pub is_word : Text → Text → Bool
is_word word value = bytes_eq word (map to_ascii_lowercase value)

abbrev pub parsed_level : Option ℕ → Result ℕ
parsed_level none = failed illegal_level
parsed_level (some level) = if ltb 0 level && ltb level 10 then done level else failed illegal_level

unfoldable pub parse_compression_level : Text → Result ℕ
unfolding bytes_eq parse_digits
parse_compression_level value =
    if is_word (b'b' ∷ b'e' ∷ b's' ∷ b't' ∷ []) value
    then done 9
    else if is_word (b'f' ∷ b'a' ∷ b's' ∷ b't' ∷ []) value
    then done 1
    else if is_word (b'd' ∷ b'e' ∷ b'f' ∷ b'a' ∷ b'u' ∷ b'l' ∷ b't' ∷ []) value
    then done 6
    else parsed_level (parse_unsigned 32 value)

parsed_level-eq-done :
    (o : Option ℕ) (level : ℕ) → parsed_level o ≡ done level → (0 < level) × (level < 10)
parsed_level-eq-done none level h = cc
parsed_level-eq-done (some n) level h = elim (Bool-cases (ltb 0 n && ltb n 10)) [
  | inr outside ↦ absurd (let clash = rw outside at h in cc)
  | inl inside ↦
      let h' = rw inside at h in
      let same : n ≡ level = cc in rw (← same) (ground (arith, inside), ground (arith, inside))
]

one_of_levels : (n level : ℕ) → 0 < n → n < 10 → done n ≡ done level → (0 < level) × (level < 10)
one_of_levels n level h k e = let same : n ≡ level = cc in rw (← same) (h, k)

level_of_words :
    (best fast default : Bool) (o : Option ℕ) (level : ℕ)
    → (if best then done 9 else if fast then done 1 else if default then done 6 else parsed_level o)
      ≡ done level
    → (0 < level) × (level < 10)
level_of_words true fast default o level h = one_of_levels 9 level (omega arith) (omega arith) h
level_of_words false true default o level h = one_of_levels 1 level (omega arith) (omega arith) h
level_of_words false false true o level h = one_of_levels 6 level (omega arith) (omega arith) h
level_of_words false false false o level h = parsed_level-eq-done o level h

-- A compression level that parse_compression_level accepts is one of 1 to 9.
pub parse_compression_level-eq-done :
    (value : Text) (level : ℕ)
    → parse_compression_level value ≡ done level
    → (0 < level) × (level < 10)
unfolding parse_compression_level
parse_compression_level-eq-done value level h =
    level_of_words (is_word (b'b' ∷ b'e' ∷ b's' ∷ b't' ∷ []) value)
      (is_word (b'f' ∷ b'a' ∷ b's' ∷ b't' ∷ []) value)
      (is_word (b'd' ∷ b'e' ∷ b'f' ∷ b'a' ∷ b'u' ∷ b'l' ∷ b't' ∷ []) value)
      (parse_unsigned 32 value) level h
