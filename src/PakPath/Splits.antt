-- ===== src/PakPath/Splits.antt =====
-- What the code uses of `split` and `find` of Rust's `str`: the parts of a text that is put together
-- from them.
use rust_u4pak.Common.{ℕ, arith, Bool, false, ◌||◌, [], ◌∷◌, ◌++◌, ◌==◌, ◌≡◌, refl}
use rust_u4pak.Text.{Text}
use rust_u4pak.PakPath.{split}

-- `contains` of a character.
unfoldable pub has_char : ℕ → Text → Bool
has_char mark [] = false
has_char mark (c ∷ t) = (c == mark) || has_char mark t

pub split_last : (mark : ℕ) (p : Text) → has_char mark p ≡ false → split mark p ≡ p ∷ []
unfolding split has_char
split_last mark [] h = refl
split_last mark (c ∷ p) h = ground (arith, split_last mark p)

pub split_first :
    (mark : ℕ) (p t : Text)
    → has_char mark p ≡ false
    → split mark (p ++ mark ∷ t) ≡ p ∷ split mark t
unfolding split has_char
split_first mark [] t h = ground arith
split_first mark (c ∷ p) t h = ground (arith, split_first mark p t)
