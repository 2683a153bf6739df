-- ===== src/Protocol/Frame/Noise.antt =====
-- protocol/frame.rs: a frame with one byte changed is never decoded.
use psicose.Prelude.{ℕ, zero, suc, ◌<◌, ◌≡◌, ◌≢◌, sym, ◌∙◌, arith, ok}
use psicose.Protocol.Bytes.{FrameBytes, set_byte, get_byte, IsBytes}
use psicose.Protocol.Crc.{crc8_header}
use psicose.Protocol.Crc.Detection.{
  crc8_header_injective_type, crc8_header_injective_seq, crc8_header_injective_payload,
}
use psicose.Protocol.Frame.{Frame, from_bytes}

-- An accepted window ends in the checksum of its header.
pub from_bytes-crc :
    (w : FrameBytes) {f : Frame} → from_bytes w ≡ ok f → crc8_header w.b0 w.b1 w.b2 ≡ w.b3
unfolding from_bytes
from_bytes-crc w h = ground arith

-- Whatever single byte of a decodable window of bytes is replaced by another byte, TYPE, SEQ,
-- DATA or CRC, the result decodes to no frame.
pub one_byte_off_refused :
    (w : FrameBytes) {f : Frame} (i c : ℕ) (g : Frame)
    → IsBytes w
    → from_bytes w ≡ ok f
    → i < 4
    → c < 256
    → c ≢ get_byte w i
    → from_bytes (set_byte w i c) ≢ ok g
unfolding set_byte get_byte
one_byte_off_refused w zero c g v h i<4 c<256 ne e = ne (
    sym (
      crc8_header_injective_type w.b0 w.b1 w.b2 v.byte0 v.byte1 v.byte2 c c<256
        (from_bytes-crc w h ∙ sym (from_bytes-crc (record w { b0 = c }) e))))
one_byte_off_refused w (suc zero) c g v h i<4 c<256 ne e = ne (
    sym (
      crc8_header_injective_seq w.b0 w.b1 w.b2 v.byte0 v.byte1 v.byte2 c c<256
        (from_bytes-crc w h ∙ sym (from_bytes-crc (record w { b1 = c }) e))))
one_byte_off_refused w (suc (suc zero)) c g v h i<4 c<256 ne e = ne (
    sym (
      crc8_header_injective_payload w.b0 w.b1 w.b2 v.byte0 v.byte1 v.byte2 c c<256
        (from_bytes-crc w h ∙ sym (from_bytes-crc (record w { b2 = c }) e))))
one_byte_off_refused w (suc (suc (suc zero))) c g v h i<4 c<256 ne e =
    ne (sym (from_bytes-crc (record w { b3 = c }) e) ∙ from_bytes-crc w h)
one_byte_off_refused w (suc (suc (suc (suc i)))) c g v h i<4 c<256 ne e = absurd (omega arith)
