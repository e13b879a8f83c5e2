-- ===== src/Crypto.antt =====
-- The parameters that stand for third-party code: the SHA-1 hasher of the `openssl` crate and the
-- zlib encoder and decoder of the `flate2` crate, with what their documentation says.
use rust_u4pak.Common.{
  ℕ, ◌≤◌, ◌*◌, ◌+◌, ◌≡◌, ◌++◌, Option, none, some, [], Bytes, length, take, leb, if◌then◌else◌,
}

-- A digest is a function of the bytes that were hashed, however they were cut, and has 20 bytes.
pub record Sha1Hasher : Type 1 where
  pub State : Type 0
  pub new : State
  pub update : State → Bytes → State
  pub finish : State → Bytes
  pub update_nil : (h : State) → update h [] ≡ h
  pub update-update : (h : State) (a b : Bytes) → update (update h a) b ≡ update h (a ++ b)
  pub length-finish : (h : State) → length (finish h) ≡ 20

-- The encoder has a level; the decoder reads back what the encoder wrote. Data that does not
-- compress is stored, so that a stream is never much longer than its data.
pub record Zlib : Type 0 where
  pub compress : ℕ → Bytes → Bytes
  pub decompress : Bytes → Option Bytes
  pub decompress-compress : (level : ℕ) (b : Bytes) → decompress (compress level b) ≡ some b
  pub length-compress : (level : ℕ) (b : Bytes) → length (compress level b) ≤ 2 * length b + 64

-- The decoder when it is asked for the first bytes only, as `read_exact` does: of a stream that
-- decodes it has the first bytes, if there are as many, and it always fills the buffer.
pub record ZlibReader : Type 0 where
  pub zlib : Zlib
  pub read_exact : ℕ → Bytes → Option Bytes
  pub read_exact-decompress :
      (n : ℕ) (s b : Bytes)
      → zlib.decompress s ≡ some b
      → read_exact n s ≡ (if leb n (length b) then some (take n b) else none)
  pub length-read_exact : (n : ℕ) (s b : Bytes) → read_exact n s ≡ some b → length b ≡ n
