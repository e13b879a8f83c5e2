-- ===== src/Decrypt.antt =====
-- src/decrypt.rs. The block cipher of the `aes` crate is a parameter: a key and a block of 16
-- bytes give a block.
use rust_u4pak.Common.{
  ℕ, zero, suc, ◌/◌, ◌%◌, Bytes, [], ◌++◌, take, drop, length, ◌==◌, not, if◌then◌else◌,
}
use rust_u4pak.Io.{Result, done, failed, panic}

abbrev pub Cipher : Type 0
Cipher = Bytes → Bytes → Bytes

-- `data.chunks_mut(BLOCK_SIZE)`, over a count of whole blocks.
unfoldable pub decrypt_blocks : Cipher → Bytes → ℕ → Bytes → Bytes
decrypt_blocks aes key zero s = []
decrypt_blocks aes key (suc n) s = aes key (take 16 s) ++ decrypt_blocks aes key n (drop 16 s)

-- `decrypt`. A key that has not 32 bytes, or data that is not whole blocks, is a panic.
unfoldable pub decrypt : Cipher → Bytes → Bytes → Result Bytes
unfolding decrypt_blocks
decrypt aes s key =
    if not (length key == 32)
    then failed panic
    else if not (length s % 16 == 0)
    then failed panic
    else done (decrypt_blocks aes key (length s / 16) s)
