-- ===== src/Error.antt =====
-- error.rs: what the state machines return when they fail.
use psicose.Prelude.{ℕ}
use psicose.Protocol.Frame.{FrameError, invalid_type, crc_mismatch, invalid_semantics}

-- `Error<E>`, over the error type of the transport.
pub data Error (E : Type 0) : Type 0 where
  transport : E → Error E
  crc : Error E
  invalid_frame_type : ℕ → Error E
  bad_semantics : Error E
  timeout : Error E
  retries_exhausted : Error E
  idle_budget_exhausted : Error E
  not_idle : Error E
  window_full : Error E
  aborted : Error E

-- `impl From<FrameError> for Error<E>`.
unfoldable pub from_frame_error : {E : Type 0} → FrameError → Error E
from_frame_error (crc_mismatch expected got) = crc
from_frame_error (invalid_type byte) = invalid_frame_type byte
from_frame_error invalid_semantics = bad_semantics
