-- ===== src/Window/Rx/Poll.antt =====
-- window/rx.rs: `poll`, one byte delivered, one reply byte written or one byte read.
use psicose.Prelude.{ℕ, not, Option, none, some, if◌then◌else◌, Result, ok, err, map_err, ◌>>=◌}
use psicose.Error.{Error}
use psicose.Transport.{ByteTransport}
use psicose.Protocol.Sequence.{current}
use psicose.Protocol.Frame.{
  Frame, FrameType, FrameError, invalid_type, crc_mismatch, invalid_semantics, nack_frame,
}
use psicose.Protocol.OutBuf.{peek, commit}
use psicose.Protocol.OutBuf
use psicose.Protocol.Assembler.{push}
use psicose.Rx.State.{receiving, validating, acknowledging, PollOutcome, delivered}
use psicose.Rx.Poll.{or_pending}
use psicose.Window.Rx.{
  WindowedReceiver, PendingAction, rejected, crc_rejected, settle_idle, is_closed, begin_reply,
  take_pending, pop_emit, handle_start, handle_abort, handle_finish, handle_data,
}

-- The action of the NACK that answers a window which does not decode.
unfoldable pub reject_action : FrameError → PendingAction
reject_action (crc_mismatch expected got) = crc_rejected
reject_action (invalid_type byte) = rejected
reject_action invalid_semantics = rejected

module _ {T E : Type 0} (io : ByteTransport T E) where
  unfoldable pub write : WindowedReceiver T → ℕ → WindowedReceiver T × Result (Unit {0}) (Error E)
  write r byte =
      let (t, w) = io.write_byte r.transport byte in
      (record r { transport = t }, map_err Error.transport w)

  unfoldable pub read : WindowedReceiver T → WindowedReceiver T × Result (Option ℕ) (Error E)
  read r =
      let (t, w) = io.read_byte r.transport in
      (record r { transport = t }, map_err Error.transport w)

-- A taken action as the result of a method that did not fail.
abbrev pub settled :
    {T E : Type 0}
    → WindowedReceiver T × Option PollOutcome
    → WindowedReceiver T × Result PollOutcome E
settled (r, o) = (r, ok (or_pending o))

module _ {T E : Type 0} (size : ℕ) (io : ByteTransport T E) where
  -- A reply byte went out.
  unfoldable pub reply_written :
      WindowedReceiver T → WindowedReceiver T × Result PollOutcome (Error E)
  unfolding take_pending OutBuf.is_idle
  reply_written r =
      if OutBuf.is_idle r.out
      then settled (take_pending size r)
      else (record r { state = acknowledging }, ok PollOutcome.pending)

  -- `match self.pump_reply()? { Some(outcome) => outcome, None => PollOutcome::Pending }`.
  unfoldable pub pump_reply : WindowedReceiver T → WindowedReceiver T × Result PollOutcome (Error E)
  unfolding write peek commit take_pending reply_written
  pump_reply r = elim (peek r.out) [
    | none ↦ settled (take_pending size r)
    | some byte ↦ write io r byte >>= λ _ r'. reply_written (record r' { out = commit r'.out })
  ]

  unfoldable pub on_frame :
      WindowedReceiver T → FrameType → Frame → WindowedReceiver T × Result PollOutcome (Error E)
  on_frame r FrameType.dat f = pump_reply (handle_data r f)
  on_frame r FrameType.start f = pump_reply (handle_start size r)
  on_frame r FrameType.finish f = pump_reply (handle_finish size r f.seq)
  on_frame r FrameType.abort f = pump_reply (handle_abort size r)
  on_frame r FrameType.ack f = (settle_idle r, ok PollOutcome.pending)
  on_frame r FrameType.nack f = (settle_idle r, ok PollOutcome.pending)

  unfoldable pub on_noise :
      WindowedReceiver T → FrameError → WindowedReceiver T × Result PollOutcome (Error E)
  unfolding settle_idle reject_action begin_reply is_closed
  on_noise r e =
      if is_closed r
      then (settle_idle r, ok PollOutcome.pending)
      else pump_reply (begin_reply r (nack_frame (current r.expected_seq)) (reject_action e))

  unfoldable pub on_push :
      WindowedReceiver T
      → Option (Result Frame FrameError)
      → WindowedReceiver T × Result PollOutcome (Error E)
  on_push r none = (r, ok PollOutcome.pending)
  on_push r (some (ok f)) = on_frame (record r { state = validating }) f.frame_type f
  on_push r (some (err e)) = on_noise (record r { state = validating }) e

  unfoldable pub on_read :
      WindowedReceiver T → Option ℕ → WindowedReceiver T × Result PollOutcome (Error E)
  unfolding settle_idle
  on_read r none = (settle_idle r, ok PollOutcome.pending)
  on_read r (some byte) =
      let (a, w) = push r.assembler byte in on_push (record r { assembler = a }) w

  -- What a `poll` reads from the transport, past the emission queue and the reply.
  unfoldable pub listen : WindowedReceiver T → WindowedReceiver T × Result PollOutcome (Error E)
  unfolding read
  listen r = read io (record r { state = receiving }) >>= λ got r'. on_read r' got

  -- A byte of the emission queue goes first.
  unfoldable pub on_emitted :
      WindowedReceiver T × Option ℕ → WindowedReceiver T × Result PollOutcome (Error E)
  unfolding OutBuf.is_idle listen
  on_emitted (r, some byte) = (r, ok (delivered byte))
  on_emitted (r, none) = if not (OutBuf.is_idle r.out) then pump_reply r else listen r

  unfoldable pub poll : WindowedReceiver T → WindowedReceiver T × Result PollOutcome (Error E)
  unfolding pop_emit on_emitted
  poll r = on_emitted (pop_emit r)
