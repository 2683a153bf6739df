-- ===== src/Protocol/Crc/Reference.antt =====
-- protocol/crc.rs against the bitwise definition of CRC-8 with generator x^8 + x^2 + x + 1.
use psicose.Prelude.{
  ℕ, zero, suc, ◌*◌, ◌%◌, ◌<◌, List, [], ◌∷◌, bit_xor, ◌≡◌, refl, ap, ◌∙◌, true, arith, ltb, ◌==◌,
  if◌then◌else◌, All, holds_below, holds_below_sound, eqb→eq, ltb→lt,
}
use psicose.Prelude.Bits.{bit_xor-lt}
use psicose.Protocol.Crc.{fold_nibble, fold_byte, fold_bytes, crc8}

-- One division step: shift out the top bit, and subtract the generator if it was set.
pub divide_bit : ℕ → ℕ
divide_bit r = if ltb r 128 then r * 2 else bit_xor (r * 2 % 256) 0x07

pub divide_bits : ℕ → ℕ → ℕ
divide_bits zero r = r
divide_bits (suc n) r = divide_bits n (divide_bit r)

-- The remainder after a message, a byte at a time, most significant bit first.
pub remainder : ℕ → List ℕ → ℕ
remainder r [] = r
remainder r (b ∷ bytes) = remainder (divide_bits 8 (bit_xor r b)) bytes

-- Two table lookups, as a function of the byte that goes in.
abbrev pub fold_pair : ℕ → ℕ
fold_pair x = fold_nibble (fold_nibble x)

-- The table was right at each of the 256 bytes.
fold_pair_table : holds_below (λ x. fold_nibble (fold_nibble x) == divide_bits 8 x) 256 ≡ true
unfolding holds_below fold_nibble divide_bits divide_bit
fold_pair_table = refl

fold_pair-lt_table : holds_below (λ x. ltb (fold_nibble (fold_nibble x)) 256) 256 ≡ true
unfolding holds_below fold_nibble
fold_pair-lt_table = refl

fold_pair-eq-divide_bits : (x : ℕ) → x < 256 → fold_nibble (fold_nibble x) ≡ divide_bits 8 x
fold_pair-eq-divide_bits x h = eqb→eq _ _ (holds_below_sound _ 256 fold_pair_table x h)

pub fold_pair-lt : (x : ℕ) → x < 256 → fold_nibble (fold_nibble x) < 256
fold_pair-lt x h = ltb→lt _ _ (holds_below_sound _ 256 fold_pair-lt_table x h)

-- The running checksum stays a byte.
pub fold_byte-lt : (crc b : ℕ) → crc < 256 → b < 256 → fold_byte crc b < 256
unfolding fold_byte
fold_byte-lt crc b h k = fold_pair-lt _ (bit_xor-lt 8 crc b h k)

pub fold_bytes-lt :
    (crc : ℕ) (bytes : List ℕ) → crc < 256 → All (λ b. b < 256) bytes → fold_bytes crc bytes < 256
unfolding fold_bytes
fold_bytes-lt crc [] h k = h
fold_bytes-lt crc (b ∷ bytes) h k =
    fold_bytes-lt (fold_byte crc b) bytes (fold_byte-lt crc b h k.0) k.1

fold_byte-eq-divide_bits :
    (crc b : ℕ) → crc < 256 → b < 256 → fold_byte crc b ≡ divide_bits 8 (bit_xor crc b)
unfolding fold_byte
fold_byte-eq-divide_bits crc b h k = fold_pair-eq-divide_bits _ (bit_xor-lt 8 crc b h k)

fold_bytes-eq-remainder :
    (crc : ℕ) (bytes : List ℕ)
    → crc < 256
    → All (λ b. b < 256) bytes
    → fold_bytes crc bytes ≡ remainder crc bytes
unfolding fold_bytes remainder
fold_bytes-eq-remainder crc [] h k = refl
fold_bytes-eq-remainder crc (b ∷ bytes) h k =
    fold_bytes-eq-remainder (fold_byte crc b) bytes (fold_byte-lt crc b h k.0) k.1
    ∙ ap (λ r. remainder r bytes) (fold_byte-eq-divide_bits crc b h k.0)

-- On every message of bytes, of any length, the table-driven `crc8` is the remainder of the
-- bitwise polynomial division.
pub crc8-eq-remainder : (bytes : List ℕ) → All (λ b. b < 256) bytes → crc8 bytes ≡ remainder 0 bytes
unfolding crc8
crc8-eq-remainder bytes h =
    ground (
      arith,
      fold_bytes-lt 0 bytes (omega arith) h,
      fold_bytes-eq-remainder 0 bytes (omega arith) h,
    )
