-- ===== src/Rx/Delivery.antt =====
-- rx.rs: what each result of `poll` says of the receiver: when a byte is delivered, when the
-- expected number moves, and how long a closed session stays closed.
use psicose.Prelude.{
  ℕ, ◌+◌, ◌≤◌, ◌<◌, ◌%◌, Bool, true, false, Option, none, some, ◌≡◌, ◌≢◌, arith, Result, ok, err,
  inl, inr, Result-cases, ◌>>=◌, map_err, ◌⊎◌, Bool-cases, leb,
}
use psicose.Error.{
  Error, transport, crc, invalid_frame_type, bad_semantics, timeout, retries_exhausted,
  idle_budget_exhausted, not_idle, window_full,
}
use psicose.Transport.{ByteTransport}
use psicose.Protocol.Bytes.{FrameBytes, get_byte}
use psicose.Protocol.Frame.{Frame, FrameType, FrameError, nack_frame}
use psicose.Protocol.Assembler.{push}
use psicose.Rx.State.{
  Receiver, is_closed, RxState, receiving, validating, PendingAction, deliver, duplicate, started,
  finished, aborted, rejected, crc_rejected, handle_start, handle_abort, handle_finish, handle_data,
  settle_idle, begin_reply, PollOutcome, delivered, duplicate_ignored, transfer_finished,
}
use psicose.Rx.Poll.{pump_reply, on_frame, on_noise, on_push, on_read, poll, read, reject_action}
use psicose.Rx.Valid.{IsValid, Replies}

abbrev pub Restarts : Option PendingAction → Type 0
Restarts none = ⊥
Restarts (some (deliver b)) = ⊥
Restarts (some duplicate) = ⊥
Restarts (some started) = Unit {0}
Restarts (some finished) = ⊥
Restarts (some aborted) = Unit {0}
Restarts (some rejected) = ⊥
Restarts (some crc_rejected) = ⊥

module _ {T : Type 0} where
  -- The expected number stays, unless a START or an ABORT is being answered.
  abbrev pub Moves : Receiver T → Receiver T → Type 0
  Moves r r' =
      (r'.expected_seq.raw ≡ r.expected_seq.raw) ⊎ ((r'.expected_seq.raw ≡ 0) × Restarts r'.pending)

  -- A closed session stays closed, unless a START is being answered.
  abbrev pub StaysClosed : Receiver T → Receiver T → Type 0
  StaysClosed r r' = (is_closed r ≡ false) ⊎ ((is_closed r' ≡ true) ⊎ (r'.pending ≡ some started))

  abbrev pub Quiet : Receiver T → Receiver T → Type 0
  Quiet r r' = Moves r r' × StaysClosed r r'

  abbrev pub Same : Receiver T → Receiver T → Type 0
  Same r r' = r'.expected_seq.raw ≡ r.expected_seq.raw

-- The reply to an action, by the expected number and the bytes of the reply.
abbrev pub Acks : PendingAction → ℕ → FrameBytes → Type 0
Acks action n w = Replies (some action) n w

module _ {T E : Type 0} (io : ByteTransport T E) where
  -- The transport takes the last byte of the reply that is in the buffer.
  abbrev pub TakesLast : Receiver T → Type 0
  TakesLast r = (r.out.pos ≡ 3) × ((io.write_byte r.transport r.out.buf.b3).1 ≡ ok tt)

  -- The poll wrote the last byte of the reply to this action, the transport took it and the buffer
  -- is free; the action is done.
  abbrev pub Answered : PendingAction → Bool → Receiver T → Receiver T → Type 0
  Answered action closed r r' =
      (r.pending ≡ some action)
      × Acks action r.expected_seq.raw r.out.buf
      × TakesLast r
      × (r'.transport ≡ (io.write_byte r.transport r.out.buf.b3).0)
      × (r'.out.pos ≡ 4)
      × (r'.pending ≡ none)
      × (is_closed r' ≡ closed)

  -- No last byte of a reply has gone out.
  abbrev pub Unsent : Receiver T → Type 0
  Unsent r = (r.out.pos ≢ 3) ⊎ ((io.write_byte r.transport r.out.buf.b3).1 ≢ ok tt)

  abbrev pub Outcome : Receiver T → Receiver T → Result PollOutcome (Error E) → Type 0
  Outcome r r' (ok PollOutcome.pending) = Unsent r × Quiet r r'
  Outcome r r' (ok (delivered b)) =
      Answered (deliver b) false r r' × (r'.expected_seq.raw ≡ (r.expected_seq.raw + 1) % 256)
  Outcome r r' (ok duplicate_ignored) = Answered duplicate false r r' × Same r r'
  Outcome r r' (ok PollOutcome.started) = Answered started false r r' × Same r r'
  Outcome r r' (ok transfer_finished) =
      Answered finished true r r' × Same r r' × (r'.state ≡ RxState.finished)
  Outcome r r' (ok PollOutcome.rejected) = Answered rejected false r r' × Same r r'
  Outcome r r' (ok PollOutcome.crc_rejected) = Answered crc_rejected false r r' × Same r r'
  Outcome r r' (ok PollOutcome.aborted) =
      Answered aborted true r r' × Same r r' × (r'.state ≡ RxState.aborted)
  Outcome r r' (err (transport e)) = Unsent r × Quiet r r'
  Outcome r r' (err retries_exhausted) = ⊥
  Outcome r r' (err crc) = ⊥
  Outcome r r' (err (invalid_frame_type b)) = ⊥
  Outcome r r' (err bad_semantics) = ⊥
  Outcome r r' (err timeout) = ⊥
  Outcome r r' (err idle_budget_exhausted) = ⊥
  Outcome r r' (err not_idle) = ⊥
  Outcome r r' (err window_full) = ⊥
  Outcome r r' (err Error.aborted) = ⊥

  abbrev pub Answers : Receiver T → Receiver T × Result PollOutcome (Error E) → Type 0
  Answers r (r', o) = Outcome r r' o

  -- The poll only read a byte, or wrote the first byte of a reply.
  abbrev Reads : Receiver T → Receiver T × Result PollOutcome (Error E) → Type 0
  Reads r (r', ok PollOutcome.pending) = Quiet r r'
  Reads r (r', ok (delivered b)) = ⊥
  Reads r (r', ok duplicate_ignored) = ⊥
  Reads r (r', ok PollOutcome.started) = ⊥
  Reads r (r', ok transfer_finished) = ⊥
  Reads r (r', ok PollOutcome.rejected) = ⊥
  Reads r (r', ok PollOutcome.crc_rejected) = ⊥
  Reads r (r', ok PollOutcome.aborted) = ⊥
  Reads r (r', err (transport e)) = Quiet r r'
  Reads r (r', err retries_exhausted) = ⊥
  Reads r (r', err crc) = ⊥
  Reads r (r', err (invalid_frame_type b)) = ⊥
  Reads r (r', err bad_semantics) = ⊥
  Reads r (r', err timeout) = ⊥
  Reads r (r', err idle_budget_exhausted) = ⊥
  Reads r (r', err not_idle) = ⊥
  Reads r (r', err window_full) = ⊥
  Reads r (r', err Error.aborted) = ⊥

  pump_reply-Answers : (r : Receiver T) → IsValid r → r.out.pos < 4 → Answers r (pump_reply io r)
  unfolding pump_reply is_closed get_byte
  pump_reply-Answers r v q = ground arith

  -- Before the last byte a reply changes neither the number nor the latches.
  pump_reply_early :
      (r : Receiver T) (r' : Receiver T)
      → Quiet r r'
      → (r'.out.pos < 3) ⊎ ((4 ≤ r'.out.pos) × (r'.pending ≡ none))
      → Reads r (pump_reply io r')
  unfolding pump_reply is_closed
  pump_reply_early r r' q h = ground arith

  on_frame-Reads :
      (r : Receiver T) (t : FrameType) (f : Frame)
      → IsValid r
      → 4 ≤ r.out.pos
      → Reads r (on_frame io r t f)
  unfolding on_frame settle_idle handle_data handle_start handle_finish handle_abort is_closed
  on_frame-Reads r FrameType.dat f v q =
      pump_reply_early r (handle_data r f) (ground arith) (ground arith)
  on_frame-Reads r FrameType.start f v q =
      pump_reply_early r (handle_start r) (ground arith) (ground arith)
  on_frame-Reads r FrameType.finish f v q =
      pump_reply_early r (handle_finish r f.seq) (ground arith) (ground arith)
  on_frame-Reads r FrameType.abort f v q =
      pump_reply_early r (handle_abort r) (ground arith) (ground arith)
  on_frame-Reads r FrameType.ack f v q = ground arith
  on_frame-Reads r FrameType.nack f v q = ground arith

  on_noise-Reads :
      (r : Receiver T) (e : FrameError) → IsValid r → 4 ≤ r.out.pos → Reads r (on_noise io r e)
  unfolding on_noise
  on_noise-Reads r e v q =
      ground (
        arith,
        pump_reply_early r (begin_reply r (nack_frame r.expected_seq.raw) (reject_action e)),
      )

  on_push-Reads :
      (r : Receiver T) (w : Option (Result Frame FrameError))
      → IsValid r
      → 4 ≤ r.out.pos
      → Reads r (on_push io r w)
  unfolding on_push is_closed
  on_push-Reads r none v q = ground arith
  on_push-Reads r (some (ok f)) v q =
      on_frame-Reads (record r { state = validating }) f.frame_type f (ground arith) q
  on_push-Reads r (some (err e)) v q =
      on_noise-Reads (record r { state = validating }) e (ground arith) q

  on_read-Reads :
      (r : Receiver T) (got : Option ℕ) → IsValid r → 4 ≤ r.out.pos → Reads r (on_read io r got)
  unfolding on_read is_closed
  on_read-Reads r none v q = ground arith
  on_read-Reads r (some b) v q =
      on_push-Reads (record r { assembler = (push r.assembler b).0 }) (push r.assembler b).1
        (ground arith) q

  idle-Reads :
      (r : Receiver T)
      → IsValid r
      → 4 ≤ r.out.pos
      → Reads r (read io (record r { state = receiving }) >>= λ got r'. on_read io r' got)
  unfolding read is_closed
  idle-Reads r v q = elim (Result-cases (io.read_byte r.transport).1) [
    | inl (got, e) ↦
        rw (e, map_err)
          (on_read-Reads (record r { state = receiving; transport = (io.read_byte r.transport).0 })
            got (ground arith) q)
    | inr (x, e) ↦ rw (e, map_err) (ground arith)
  ]

  Reads-Answers :
      (r : Receiver T) (x : Receiver T × Result PollOutcome (Error E))
      → 4 ≤ r.out.pos
      → Reads r x
      → Answers r x
  Reads-Answers r (r', ok o) q h = ground arith
  Reads-Answers r (r', err e) q h = ground arith

  -- Every result of a poll of a valid receiver, over every transport. The poll reports an action
  -- exactly where the transport takes the fourth and last byte of the reply to that action, and the
  -- action is then done and the buffer free. The reply is: for a byte that is delivered, the ACK of
  -- the expected number, and the number is one further afterwards; for a duplicate an ACK, for
  -- START and ABORT the ACK of 0, for FINISH the ACK of the expected number, for a CRC error the
  -- NACK of the expected number, for any other rejection a NACK, and the number is the same
  -- afterwards. The session is closed after FINISH and ABORT, and open after the others. A pending
  -- poll and a transport error come only where no last byte of a reply has gone out; they move the
  -- number only to 0, to answer a START or an ABORT, and reopen a closed session only to answer a
  -- START. No other error arises.
  pub receiver_poll-Answers : (r : Receiver T) → IsValid r → Answers r (poll io r)
  unfolding poll
  receiver_poll-Answers r v = elim (Bool-cases (leb 4 r.out.pos)) [
    | inl quiet ↦ rw quiet (Reads-Answers r _ (ground arith) (idle-Reads r v (ground arith)))
    | inr busy ↦ rw busy (pump_reply-Answers r v (ground arith))
  ]
