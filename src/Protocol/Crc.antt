-- ===== src/Protocol/Crc.antt =====
-- protocol/crc.rs: the table-driven CRC-8, and the bitwise checksum that it stands for.
pub mod Reference
pub mod Detection
use psicose.Prelude.{
  ℕ, zero, suc, ◌+◌, ◌-◌, ◌*◌, ◌/◌, ◌%◌, ◌^◌, List, [], ◌∷◌, get_or, bit_and, bit_xor,
}

-- CRC8_POLY
abbrev pub crc8_poly : ℕ
crc8_poly = 0x07

-- `wrapping_neg` of a byte.
abbrev wrapping_neg : ℕ → ℕ
wrapping_neg a = (2 ^ 8 - a % 2 ^ 8) % 2 ^ 8

pub bit_step : ℕ → ℕ
bit_step crc =
    let hibit = crc / 2 ^ 7 in
    bit_xor (crc * 2 ^ 1 % 2 ^ 8) (bit_and (wrapping_neg hibit) crc8_poly)

-- `while bit < 4 { crc = bit_step(crc); bit += 1 }`, by the rounds left.
bit_steps : ℕ → ℕ → ℕ
bit_steps zero crc = crc
bit_steps (suc rounds) crc = bit_steps rounds (bit_step crc)

nibble_entry : ℕ → ℕ
unfolding bit_steps bit_step
nibble_entry n = bit_steps 4 (n * 2 ^ 4 % 2 ^ 8)

-- `while n < 16 { table[n] = …; n += 1 }`, from entry `n` on.
nibble_rows : ℕ → ℕ → List ℕ
nibble_rows zero n = []
nibble_rows (suc left) n = nibble_entry n ∷ nibble_rows left (n + 1)

-- NIBBLE
nibble : List ℕ
unfolding nibble_rows nibble_entry
nibble = nibble_rows 16 0

pub fold_nibble : ℕ → ℕ
unfolding nibble
fold_nibble crc =
    let index = bit_and (crc / 2 ^ 4) 0x0F in
    bit_xor (bit_and (crc * 2 ^ 4 % 2 ^ 32) 0xFF) (get_or nibble index 0)

unfoldable pub fold_byte : ℕ → ℕ → ℕ
unfolding fold_nibble
fold_byte crc byte = fold_nibble (fold_nibble (bit_xor crc byte))

-- `while i < bytes.len() { crc = fold_byte(crc, bytes[i]); i += 1 }`.
unfoldable pub fold_bytes : ℕ → List ℕ → ℕ
fold_bytes crc [] = crc
fold_bytes crc (b ∷ bytes) = fold_bytes (fold_byte crc b) bytes

unfoldable pub crc8 : List ℕ → ℕ
unfolding fold_bytes
crc8 bytes = fold_bytes 0 bytes % 2 ^ 8

unfoldable pub crc8_header : ℕ → ℕ → ℕ → ℕ
unfolding crc8
crc8_header type_byte seq payload = crc8 (type_byte ∷ seq ∷ payload ∷ [])
