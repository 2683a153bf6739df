-- ===== src/Protocol/Frame.antt =====
-- protocol/frame.rs: the frame, its wire form and the decoder.
pub mod Laws
pub mod Noise
use psicose.Prelude.{
  ℕ, Bool, true, false, Option, none, some, ◌<◌, ◌≡◌, ◌==◌, if◌then◌else◌, not, ◌&&◌, ◌||◌, Result,
  ok, err,
}
use psicose.Protocol.Bytes.{FrameBytes}
use psicose.Protocol.Crc.{crc8_header}

pub data FrameType : Type 0 where
  dat ack nack start finish abort : FrameType

-- `frame_type as u8`.
unfoldable pub as_u8 : FrameType → ℕ
as_u8 dat = 0x01
as_u8 ack = 0x02
as_u8 nack = 0x03
as_u8 start = 0x04
as_u8 finish = 0x05
as_u8 abort = 0x06

unfoldable pub from_u8 : ℕ → Option FrameType
from_u8 byte =
    if byte == 0x01
    then some dat
    else if byte == 0x02
    then some ack
    else if byte == 0x03
    then some nack
    else if byte == 0x04
    then some start
    else if byte == 0x05
    then some finish
    else if byte == 0x06
    then some abort
    else none

unfoldable pub is_control : FrameType → Bool
is_control dat = false
is_control ack = true
is_control nack = true
is_control start = true
is_control finish = true
is_control abort = true

pub data FrameError : Type 0 where
  invalid_type : ℕ → FrameError
  crc_mismatch : (expected got : ℕ) → FrameError
  invalid_semantics : FrameError

pub record Frame : Type 0 where
  pub frame_type : FrameType
  pub seq : ℕ
  pub payload : ℕ

unfoldable pub raw : FrameType → ℕ → ℕ → Frame
raw t seq payload = record { frame_type = t; seq = seq; payload = payload }

unfoldable pub data_frame : ℕ → ℕ → Frame
unfolding raw
data_frame seq byte = raw dat seq byte

unfoldable pub ack_frame : ℕ → Frame
unfolding raw
ack_frame seq = raw ack seq 0

unfoldable pub nack_frame : ℕ → Frame
unfolding raw
nack_frame seq = raw nack seq 0

unfoldable pub start_frame : Frame
unfolding raw
start_frame = raw start 0 0

unfoldable pub finish_frame : ℕ → Frame
unfolding raw
finish_frame seq = raw finish seq 0

unfoldable pub abort_frame : Frame
unfolding raw
abort_frame = raw abort 0 0

unfoldable pub to_bytes : Frame → FrameBytes
to_bytes f =
    let type_byte = as_u8 f.frame_type in
    record {
      b0 = type_byte;
      b1 = f.seq;
      b2 = f.payload;
      b3 = crc8_header type_byte f.seq f.payload;
    }

-- `matches!(frame_type, Start | Abort)`.
unfoldable pub opens_or_aborts : FrameType → Bool
opens_or_aborts start = true
opens_or_aborts abort = true
opens_or_aborts dat = false
opens_or_aborts ack = false
opens_or_aborts nack = false
opens_or_aborts finish = false

unfoldable pub semantics_ok : FrameType → ℕ → ℕ → Bool
unfolding is_control opens_or_aborts
semantics_ok t seq payload =
    if is_control t && not (payload == 0)
    then false
    else if opens_or_aborts t && not (seq == 0)
    then false
    else true

-- The decoder past the type test.
unfoldable pub check_body : FrameType → FrameBytes → Result Frame FrameError
unfolding semantics_ok raw
check_body t bytes =
    let expected = crc8_header bytes.b0 bytes.b1 bytes.b2 in
    let got = bytes.b3 in
    if not (expected == got)
    then err (crc_mismatch expected got)
    else if not (semantics_ok t bytes.b1 bytes.b2)
    then err invalid_semantics
    else ok (raw t bytes.b1 bytes.b2)

unfoldable pub from_bytes : FrameBytes → Result Frame FrameError
unfolding check_body
from_bytes bytes = elim (from_u8 bytes.b0) [
  | none ↦ err (invalid_type bytes.b0)
  | some t ↦ check_body t bytes
]
