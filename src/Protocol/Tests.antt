-- ===== src/Protocol/Tests.antt =====
-- src/protocol at concrete inputs.
use psicose.Prelude.{[], ◌∷◌, ◌++◌, ◌≡◌, ◌≢◌, refl, arith, true, ok}
use psicose.Protocol.Bytes.{FrameBytes, set_byte, get_byte}
use psicose.Protocol.Crc.{crc8, fold_byte, crc8_header}
use psicose.Protocol.Crc.Reference.{remainder, crc8-eq-remainder}
use psicose.Protocol.Frame.{Frame, dat, ack, raw, from_bytes, to_bytes, from_u8, semantics_ok}
use psicose.Protocol.Frame.Laws.{from_bytes-to_bytes, to_bytes-from_bytes}
use psicose.Protocol.Frame.Noise.{one_byte_off_refused}
use psicose.Protocol.Assembler.{new, resyncing}
use psicose.Protocol.Assembler.Framing.{decoded, wire, decoded-wire}
use psicose.Protocol.Assembler.Resync.{decoded-resyncing}

-- `crc8(b"123456789")` is the check value of CRC-8.
check_value : crc8 (0x31 ∷ 0x32 ∷ 0x33 ∷ 0x34 ∷ 0x35 ∷ 0x36 ∷ 0x37 ∷ 0x38 ∷ 0x39 ∷ []) ≡ 0xF4
unfolding crc8 fold_byte
check_value = refl

crc8-eq-remainder_example : crc8 (0x01 ∷ 0x2A ∷ 0xFF ∷ []) ≡ remainder 0 (0x01 ∷ 0x2A ∷ 0xFF ∷ [])
crc8-eq-remainder_example = crc8-eq-remainder (0x01 ∷ 0x2A ∷ 0xFF ∷ []) (omega arith)

abbrev letter : Frame
letter = record { frame_type = dat; seq = 7; payload = 0x42 }

abbrev opening : Frame
opening = record { frame_type = ack; seq = 0; payload = 0 }

from_bytes-to_bytes_example : from_bytes (to_bytes letter) ≡ ok letter
unfolding semantics_ok
from_bytes-to_bytes_example = from_bytes-to_bytes letter refl

to_bytes-from_bytes_example : (to_bytes letter ≡ to_bytes letter) × (semantics_ok dat 7 0x42 ≡ true)
unfolding semantics_ok
to_bytes-from_bytes_example =
    to_bytes-from_bytes (to_bytes letter) (from_bytes-to_bytes letter refl)

abbrev letter_bytes : FrameBytes
letter_bytes = record { b0 = 0x01; b1 = 7; b2 = 0x42; b3 = crc8_header 0x01 7 0x42 }

one_byte_off_refused_example : from_bytes (set_byte letter_bytes 2 0x43) ≢ ok letter
unfolding from_bytes from_u8 raw crc8_header fold_byte get_byte
one_byte_off_refused_example =
    one_byte_off_refused letter_bytes 2 0x43 letter
      (record {
        byte0 = omega arith;
        byte1 = omega arith;
        byte2 = omega arith;
        byte3 = omega arith;
      })
      refl (omega arith) (omega arith) (λ e. ground arith)

decoded-wire_example : decoded new (wire (letter ∷ opening ∷ [])) ≡ letter ∷ opening ∷ []
unfolding semantics_ok new
decoded-wire_example = decoded-wire new (letter ∷ opening ∷ []) refl (refl, (refl, tt))

decoded-resyncing_example :
    decoded resyncing ((0xFF ∷ 0x00 ∷ 0x55 ∷ 0xAA ∷ 0x99 ∷ []) ++ wire (letter ∷ opening ∷ []))
    ≡ letter ∷ opening ∷ []
unfolding semantics_ok from_u8
decoded-resyncing_example =
    decoded-resyncing (0xFF ∷ 0x00 ∷ 0x55 ∷ 0xAA ∷ 0x99 ∷ []) (letter ∷ opening ∷ [])
      (refl, (refl, (refl, (refl, (refl, tt))))) (refl, (refl, tt))
