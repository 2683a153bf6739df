-- ===== src/Rx/Poll.antt =====
-- rx.rs: `poll`, one reply byte written or one byte read.
use psicose.Prelude.{ℕ, not, Option, none, some, if◌then◌else◌, Result, ok, err, map_err, ◌>>=◌}
use psicose.Error.{Error}
use psicose.Transport.{ByteTransport}
use psicose.Protocol.Sequence.{current}
use psicose.Protocol.Frame.{
  Frame, FrameType, FrameError, invalid_type, crc_mismatch, invalid_semantics, nack_frame,
}
use psicose.Protocol.OutBuf.{peek, commit}
use psicose.Protocol.OutBuf
use psicose.Protocol.Assembler.{push}
use psicose.Rx.State.{
  Receiver, receiving, validating, acknowledging, PendingAction, rejected, crc_rejected,
  PollOutcome, settle_idle, is_closed, begin_reply, take_pending, handle_start, handle_abort,
  handle_finish, handle_data,
}

-- The action of the NACK that answers a window which does not decode.
unfoldable pub reject_action : FrameError → PendingAction
reject_action (crc_mismatch expected got) = crc_rejected
reject_action (invalid_type byte) = rejected
reject_action invalid_semantics = rejected

-- `Some(outcome) => outcome, None => PollOutcome::Pending`.
abbrev pub or_pending : Option PollOutcome → PollOutcome
or_pending none = PollOutcome.pending
or_pending (some outcome) = outcome

module _ {T E : Type 0} (io : ByteTransport T E) where
  unfoldable pub write : Receiver T → ℕ → Receiver T × Result (Unit {0}) (Error E)
  write r byte =
      let (t, w) = io.write_byte r.transport byte in
      (record r { transport = t }, map_err Error.transport w)

  unfoldable pub read : Receiver T → Receiver T × Result (Option ℕ) (Error E)
  read r =
      let (t, w) = io.read_byte r.transport in
      (record r { transport = t }, map_err Error.transport w)

  -- A taken action as the result of a method that did not fail.
  abbrev settled : Receiver T × Option PollOutcome → Receiver T × Result PollOutcome (Error E)
  settled (r, o) = (r, ok (or_pending o))

  -- A reply byte went out.
  unfoldable pub reply_written : Receiver T → Receiver T × Result PollOutcome (Error E)
  unfolding take_pending OutBuf.is_idle
  reply_written r =
      if OutBuf.is_idle r.out
      then settled (take_pending r)
      else (record r { state = acknowledging }, ok PollOutcome.pending)

  -- `match self.pump_reply()? { Some(outcome) => outcome, None => PollOutcome::Pending }`.
  unfoldable pub pump_reply : Receiver T → Receiver T × Result PollOutcome (Error E)
  unfolding write peek commit take_pending reply_written
  pump_reply r = elim (peek r.out) [
    | none ↦ settled (take_pending r)
    | some byte ↦ write r byte >>= λ _ r'. reply_written (record r' { out = commit r'.out })
  ]

  unfoldable pub on_frame :
      Receiver T → FrameType → Frame → Receiver T × Result PollOutcome (Error E)
  on_frame r FrameType.dat f = pump_reply (handle_data r f)
  on_frame r FrameType.start f = pump_reply (handle_start r)
  on_frame r FrameType.finish f = pump_reply (handle_finish r f.seq)
  on_frame r FrameType.abort f = pump_reply (handle_abort r)
  on_frame r FrameType.ack f = (settle_idle r, ok PollOutcome.pending)
  on_frame r FrameType.nack f = (settle_idle r, ok PollOutcome.pending)

  unfoldable pub on_noise : Receiver T → FrameError → Receiver T × Result PollOutcome (Error E)
  unfolding settle_idle reject_action begin_reply is_closed
  on_noise r e =
      if is_closed r
      then (settle_idle r, ok PollOutcome.pending)
      else pump_reply (begin_reply r (nack_frame (current r.expected_seq)) (reject_action e))

  unfoldable pub on_push :
      Receiver T → Option (Result Frame FrameError) → Receiver T × Result PollOutcome (Error E)
  on_push r none = (r, ok PollOutcome.pending)
  on_push r (some (ok f)) = on_frame (record r { state = validating }) f.frame_type f
  on_push r (some (err e)) = on_noise (record r { state = validating }) e

  unfoldable pub on_read : Receiver T → Option ℕ → Receiver T × Result PollOutcome (Error E)
  unfolding settle_idle
  on_read r none = (settle_idle r, ok PollOutcome.pending)
  on_read r (some byte) =
      let (a, w) = push r.assembler byte in on_push (record r { assembler = a }) w

  unfoldable pub poll : Receiver T → Receiver T × Result PollOutcome (Error E)
  unfolding OutBuf.is_idle
  poll r =
      if not (OutBuf.is_idle r.out)
      then pump_reply r
      else read (record r { state = receiving }) >>= λ got r'. on_read r' got
