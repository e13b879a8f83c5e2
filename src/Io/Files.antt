-- ===== src/Io/Files.antt =====
-- Reading and seeking in a file that is known to consist of a front and a tail.
use rust_u4pak.Common.{
  ℕ, ◌+◌, ◌-◌, ◌≡◌, ◌∙◌, refl, arith, true, ◌++◌, Bytes, length, length-append, drop, drop-append,
  leb,
}
use rust_u4pak.Io.{ok, Reader, seek_end, from_here, advanced}

pub from_here-ok :
    {A : Type 0} (file : Bytes) (m : Reader A) (pos : ℕ) {a : A} {rest : Bytes}
    → m (drop pos file) ≡ ok a rest
    → from_here file m pos ≡ ok a (advanced file pos rest)
unfolding from_here
from_here-ok file m pos e = rw (e, from_here)

module _ (front tail : Bytes) where
  -- What a reader does at the place where the tail begins.
  pub from_here-tail :
      {A : Type 0} (m : Reader A) {a : A} {rest : Bytes}
      → m tail ≡ ok a rest
      → from_here (front ++ tail) m (length front)
        ≡ ok a (length front + (length tail - length rest))
  from_here-tail m {a} {rest} e =
      let here : drop (length front) (front ++ tail) ≡ tail =
        drop-append front tail (length front) refl in
      from_here-ok (front ++ tail) m (length front) {a = a} {rest = rest} (rw here e) ∙ rw here

  pub seek_end-tail :
      (n pos : ℕ)
      → n ≡ length tail
      → seek_end (front ++ tail) n pos ≡ ok (length front) (length front)
  seek_end-tail n pos e =
      let fits : leb n (length (front ++ tail)) ≡ true = ground (arith, length-append front tail) in
      let start : length (front ++ tail) - n ≡ length front =
        omega (arith, length-append front tail) in
      rw (fits, start)
