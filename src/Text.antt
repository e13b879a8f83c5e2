-- ===== src/Text.antt =====
-- What the code uses of Rust's `char` and `String`: a text is the list of its code points.
pub mod RoundTrip
use rust_u4pak.Common.{
  ℕ, zero, suc, ◌+◌, ◌-◌, ◌*◌, ◌/◌, ◌%◌, Bool, true, false, ◌&&◌, ◌||◌, not, Option, none, some,
  List, [], ◌∷◌, ◌++◌, ltb, leb, ◌==◌, if◌then◌else◌, Bytes, ◌≤◌, ◌<◌,
}

abbrev pub Text : Type 0
Text = List ℕ

abbrev pub is_surrogate : ℕ → Bool
is_surrogate c = leb 0xD800 c && ltb c 0xE000

-- A value of type `char`.
abbrev pub is_char : ℕ → Bool
is_char c = ltb c 0x110000 && not (is_surrogate c)

-- The UTF-8 form of a `char`.
unfoldable pub utf8_char : ℕ → Bytes
utf8_char c =
    if ltb c 0x80
    then c ∷ []
    else if ltb c 0x800
    then (0xC0 + c / 64) ∷ (0x80 + c % 64) ∷ []
    else if ltb c 0x10000
    then (0xE0 + c / 4096) ∷ (0x80 + c / 64 % 64) ∷ (0x80 + c % 64) ∷ []
    else (0xF0 + c / 262144) ∷ (0x80 + c / 4096 % 64) ∷ (0x80 + c / 64 % 64) ∷ (0x80 + c % 64) ∷ []

-- `str::as_bytes`.
unfoldable pub as_bytes : Text → Bytes
unfolding utf8_char
as_bytes [] = []
as_bytes (c ∷ t) = utf8_char c ++ as_bytes t

-- A character that is not complete: the bytes to come, its bits so far, and the least value that
-- needs this many bytes.
pub record Pending : Type 0 where
  pub missing : ℕ
  pub bits : ℕ
  pub least : ℕ

abbrev pub idle : Pending
idle = record { missing = 0; bits = 0; least = 0 }

abbrev pending : ℕ → ℕ → ℕ → Option (Pending × Text)
pending n b l = some (record { missing = n; bits = b; least = l }, [])

-- A first byte.
utf8_first : ℕ → Option (Pending × Text)
utf8_first b =
    if ltb b 0x80
    then some (idle, b ∷ [])
    else if leb 0xC0 b && ltb b 0xE0
    then pending 1 (b - 0xC0) 0x80
    else if leb 0xE0 b && ltb b 0xF0
    then pending 2 (b - 0xE0) 0x800
    else if leb 0xF0 b && ltb b 0xF8
    then pending 3 (b - 0xF0) 0x10000
    else none

abbrev is_continuation : ℕ → Bool
is_continuation b = leb 0x80 b && ltb b 0xC0

abbrev with_bits : ℕ → ℕ → ℕ
with_bits bits b = bits * 64 + (b - 0x80)

-- A byte in state `p`, by the count of bytes that are missing.
unfoldable pub utf8_step : ℕ → Pending → ℕ → Option (Pending × Text)
unfolding utf8_first
utf8_step zero p b = utf8_first b
utf8_step (suc zero) p b =
    if is_continuation b && is_char (with_bits p.bits b) && leb p.least (with_bits p.bits b)
    then some (idle, with_bits p.bits b ∷ [])
    else none
utf8_step (suc (suc n)) p b =
    if is_continuation b then pending (suc n) (with_bits p.bits b) p.least else none

abbrev pub prepend : Text → Option Text → Option Text
prepend out none = none
prepend out (some t) = some (out ++ t)

unfoldable pub utf8_run : Pending → Bytes → Option Text
unfolding utf8_step
utf8_run p [] = if p.missing == 0 then some [] else none
utf8_run p (b ∷ s) = elim (utf8_step p.missing p b) [
  | none ↦ none
  | some (q, out) ↦ prepend out (utf8_run q s)
]

-- `String::from_utf8`, with `none` for an error.
unfoldable pub from_utf8 : Bytes → Option Text
unfolding utf8_run
from_utf8 = utf8_run idle

-- `String::from_utf16`, with the high surrogate that waits for its other half.
unfoldable pub utf16_run : Option ℕ → List ℕ → Option Text
utf16_run none [] = some []
utf16_run (some h) [] = none
utf16_run none (u ∷ us) = elim (is_surrogate u) [
  | false ↦ prepend (u ∷ []) (utf16_run none us)
  | true ↦ elim (ltb u 0xDC00) [ true ↦ utf16_run (some u) us | false ↦ none ]
]
utf16_run (some h) (u ∷ us) = elim (leb 0xDC00 u && ltb u 0xE000) [
  | true ↦ prepend ((0x10000 + (h - 0xD800) * 1024 + (u - 0xDC00)) ∷ []) (utf16_run none us)
  | false ↦ none
]

unfoldable pub from_utf16 : List ℕ → Option Text
unfolding utf16_run
from_utf16 = utf16_run none
