-- ===== src/Mount/Time.antt =====
-- src/mount.rs: `make_time`. A `SystemTime` is its distance from `UNIX_EPOCH` in nanoseconds.
use rust_u4pak.Common.{
  ℕ, zero, suc, ◌+◌, ◌-◌, ◌*◌, ◌%◌, ◌^◌, ◌<◌, ◌≡◌, arith, Bool, true, false, leb, if◌then◌else◌,
}

pub data ℤ : Type 0 where
  pos : ℕ → ℤ
  negsuc : ℕ → ℤ

abbrev pub SystemTime : Type 0
SystemTime = ℤ

abbrev pub unix_epoch : SystemTime
unix_epoch = pos 0

abbrev pub giga : ℕ
giga = 1000000000

-- `-a` and `a - b`.
abbrev pub neg : ℕ → ℤ
neg zero = pos zero
neg (suc n) = negsuc n

abbrev pub minus : ℕ → ℕ → ℤ
minus a b = if leb b a then pos (a - b) else neg (b - a)

abbrev pub negate : ℤ → ℤ
negate (pos n) = neg n
negate (negsuc n) = pos (suc n)

infixl 50 ◌+ℤ◌
abbrev pub ◌+ℤ◌ : ℤ → ℤ → ℤ
pos a +ℤ pos b = pos (a + b)
pos a +ℤ negsuc b = minus a (suc b)
negsuc a +ℤ pos b = minus b (suc a)
negsuc a +ℤ negsuc b = negsuc (suc (a + b))

abbrev pub is_negative : ℤ → Bool
is_negative (pos n) = false
is_negative (negsuc n) = true

abbrev pub is_positive : ℤ → Bool
is_positive (pos (suc n)) = true
is_positive _ = false

-- `as u64` and `as u32`.
abbrev pub as_word : ℕ → ℤ → ℕ
as_word w (pos n) = n % 2 ^ w
as_word w (negsuc n) = 2 ^ w - 1 - n % 2 ^ w

-- `Duration::new`.
abbrev pub duration : ℕ → ℕ → ℕ
duration secs nanos = secs * giga + nanos

unfoldable pub make_time : ℤ → ℤ → SystemTime
make_time time nsec =
    if is_positive time
    then (if is_negative nsec
        then pos (duration (as_word 64 (time +ℤ negsuc 0)) (as_word 32 (nsec +ℤ pos giga)))
        else pos (duration (as_word 64 time) (as_word 32 nsec)))
    else if is_negative nsec
    then neg (duration (as_word 64 (negate time)) (as_word 32 (negate nsec)))
    else neg (duration (as_word 64 (negate time +ℤ pos 1)) (as_word 32 (pos giga +ℤ negate nsec)))

abbrev pub magnitude : ℤ → ℕ
magnitude (pos n) = n
magnitude (negsuc n) = suc n

-- So many seconds and nanoseconds, as nanoseconds.
abbrev pub in_nanos : ℤ → ℤ → ℤ
in_nanos (pos secs) nsec = pos (secs * giga) +ℤ nsec
in_nanos (negsuc secs) nsec = neg (suc secs * giga) +ℤ nsec

minus-lt : (a b : ℕ) → a < b → minus a b ≡ neg (b - a)
minus-lt a b h = let below : leb b a ≡ false = ground arith in rw below

pos-neg-lt : (a b : ℕ) → a < b → pos a +ℤ neg b ≡ neg (b - a)
pos-neg-lt a zero h = absurd (omega arith)
pos-neg-lt a (suc b) h = minus-lt a (suc b) h
