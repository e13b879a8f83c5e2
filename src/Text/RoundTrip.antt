-- ===== src/Text/RoundTrip.antt =====
-- Every text is read back from its UTF-8 form.
use rust_u4pak.Common.{
  ℕ, ◌≡◌, ◌∙◌, refl, arith, true, Option, some, none, [], ◌∷◌, ◌++◌, append_assoc, Bytes, All,
}
use rust_u4pak.Text.{
  Text, idle, is_char, utf8_char, as_bytes, utf8_step, utf8_run, from_utf8, prepend,
}

abbrev pub IsText : Text → Type 0
IsText = All (λ c. is_char c ≡ true)

utf8_run-utf8_char :
    (c : ℕ) (s : Bytes)
    → is_char c ≡ true
    → utf8_run idle (utf8_char c ++ s) ≡ prepend (c ∷ []) (utf8_run idle s)
unfolding utf8_run utf8_step utf8_char
utf8_run-utf8_char c s h = ground arith

prepend-append : (a b : Text) (o : Option Text) → prepend (a ++ b) o ≡ prepend a (prepend b o)
prepend-append a b none = refl
prepend-append a b (some t) = rw append_assoc

utf8_run-as_bytes : (t : Text) → IsText t → utf8_run idle (as_bytes t) ≡ some t
unfolding as_bytes
utf8_run-as_bytes [] h = unfold utf8_run in refl
utf8_run-as_bytes (c ∷ t) (h, hs) =
    utf8_run-utf8_char c (as_bytes t) h ∙ rw (utf8_run-as_bytes t hs)

-- Any text of `char` values is read back from its UTF-8 form.
pub from_utf8-as_bytes : (t : Text) → IsText t → from_utf8 (as_bytes t) ≡ some t
unfolding from_utf8
from_utf8-as_bytes t h = utf8_run-as_bytes t h
