-- ===== src/Protocol/Crc/Detection.antt =====
-- protocol/crc.rs: which corruptions the checksum of a frame header shows.
use psicose.Prelude.{
  ℕ, zero, suc, ◌+◌, ◌/◌, ◌%◌, ◌<◌, bit_xor, ◌≡◌, refl, ap, sym, ◌∙◌, true, arith, ◌==◌,
  if◌then◌else◌, holds_below, holds_below_sound, eqb→eq,
}
use psicose.Prelude.Bits.{bit_xor-lt, bit_xor_left_injective, bit_xor_right_injective}
use psicose.Protocol.Crc.{fold_nibble, fold_byte, fold_bytes, crc8, crc8_header}
use psicose.Protocol.Crc.Reference.{fold_byte-lt}

-- A division step run backwards: an odd remainder had the generator subtracted.
undivide_bit : ℕ → ℕ
undivide_bit r = if r % 2 == 1 then bit_xor r 0x07 / 2 + 128 else r / 2

undivide_bits : ℕ → ℕ → ℕ
undivide_bits zero r = r
undivide_bits (suc n) r = undivide_bits n (undivide_bit r)

undivide_table : holds_below (λ x. undivide_bits 8 (fold_nibble (fold_nibble x)) == x) 256 ≡ true
unfolding holds_below fold_nibble undivide_bits undivide_bit
undivide_table = refl

fold_pair_injective :
    (x y : ℕ)
    → x < 256
    → y < 256
    → fold_nibble (fold_nibble x) ≡ fold_nibble (fold_nibble y)
    → x ≡ y
fold_pair_injective x y h k e =
    sym (eqb→eq _ _ (holds_below_sound _ 256 undivide_table x h))
    ∙ ap (undivide_bits 8) e
    ∙ eqb→eq _ _ (holds_below_sound _ 256 undivide_table y k)

pub fold_byte_injective_byte :
    (crc b c : ℕ) → crc < 256 → b < 256 → c < 256 → fold_byte crc b ≡ fold_byte crc c → b ≡ c
unfolding fold_byte
fold_byte_injective_byte crc b c h p q e =
    bit_xor_left_injective crc b c
      (fold_pair_injective _ _ (bit_xor-lt 8 crc b h p) (bit_xor-lt 8 crc c h q) e)

pub fold_byte_injective_crc :
    (r s b : ℕ) → r < 256 → s < 256 → b < 256 → fold_byte r b ≡ fold_byte s b → r ≡ s
unfolding fold_byte
fold_byte_injective_crc r s b h p q e =
    bit_xor_right_injective r s b
      (fold_pair_injective _ _ (bit_xor-lt 8 r b h q) (bit_xor-lt 8 s b p q) e)

-- On bytes, the checksum of a header is three folds.
pub crc8_header-eq-fold :
    (t s d : ℕ)
    → t < 256
    → s < 256
    → d < 256
    → crc8_header t s d ≡ fold_byte (fold_byte (fold_byte 0 t) s) d
unfolding crc8_header crc8 fold_bytes
crc8_header-eq-fold t s d ht hs hd = omega (
  arith,
  fold_byte-lt (fold_byte (fold_byte 0 t) s) d
      (fold_byte-lt (fold_byte 0 t) s (fold_byte-lt 0 t (omega arith) ht) hs) hd,
)

module _ (t s d : ℕ) (ht : t < 256) (hs : s < 256) (hd : d < 256) where
  after_type : fold_byte 0 t < 256
  after_type = fold_byte-lt 0 t (omega arith) ht

  after_seq : fold_byte (fold_byte 0 t) s < 256
  after_seq = fold_byte-lt (fold_byte 0 t) s after_type hs

  -- One byte of a header decides the checksum, the other two fixed.
  pub crc8_header_injective_payload :
      (c : ℕ) → c < 256 → crc8_header t s d ≡ crc8_header t s c → d ≡ c
  crc8_header_injective_payload c hc e =
      fold_byte_injective_byte _ d c after_seq hd hc
        (sym (crc8_header-eq-fold t s d ht hs hd) ∙ e ∙ crc8_header-eq-fold t s c ht hs hc)

  pub crc8_header_injective_seq : (c : ℕ) → c < 256 → crc8_header t s d ≡ crc8_header t c d → s ≡ c
  crc8_header_injective_seq c hc e = fold_byte_injective_byte _ s c after_type hs hc (
      fold_byte_injective_crc _ _ d after_seq (fold_byte-lt (fold_byte 0 t) c after_type hc) hd
        (sym (crc8_header-eq-fold t s d ht hs hd) ∙ e ∙ crc8_header-eq-fold t c d ht hc hd))

  pub crc8_header_injective_type : (c : ℕ) → c < 256 → crc8_header t s d ≡ crc8_header c s d → t ≡ c
  crc8_header_injective_type c hc e = fold_byte_injective_byte 0 t c (omega arith) ht hc (
      fold_byte_injective_crc _ _ s after_type (fold_byte-lt 0 c (omega arith) hc) hs (
        fold_byte_injective_crc _ _ d after_seq
          (fold_byte-lt (fold_byte 0 c) s (fold_byte-lt 0 c (omega arith) hc) hs) hd
          (sym (crc8_header-eq-fold t s d ht hs hd) ∙ e ∙ crc8_header-eq-fold c s d hc hs hd)))

pub crc8_header-lt : (t s d : ℕ) → crc8_header t s d < 256
unfolding crc8_header crc8
crc8_header-lt t s d = omega arith
