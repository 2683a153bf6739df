-- ===== src/Rx/Valid.antt =====
-- rx.rs: the receiver's invariant, kept by every poll over every transport.
use psicose.Prelude.{
  ℕ, ◌≤◌, ◌<◌, Bool, true, false, Option, none, some, ◌≡◌, arith, Result, ok, err, inl, inr,
  Result-cases, ◌>>=◌, map_err,
}
use psicose.Transport.{ByteTransport}
use psicose.Protocol.Sequence.{Sequence}
use psicose.Protocol.Bytes.{FrameBytes}
use psicose.Protocol.Frame.{Frame, FrameType, FrameError, to_bytes, ack_frame, nack_frame}
use psicose.Protocol.Assembler.{push}
use psicose.Rx.State.{
  Receiver, is_some, receiving, validating, PendingAction, deliver, duplicate, started, finished,
  aborted, rejected, crc_rejected, new, handle_start, handle_abort, handle_finish, handle_data,
  settle_idle, begin_reply,
}
use psicose.Rx.Poll.{pump_reply, on_frame, on_noise, on_push, on_read, poll, read, reject_action}

-- What a pending action says of the latches: a session that closes has its latch set, and no
-- other answer but that is under way in a closed session.
abbrev pub Latched : PendingAction → Bool → Option ℕ → Type 0
Latched (deliver b) abort finish = (abort ≡ false) × (finish ≡ none)
Latched duplicate abort finish = (abort ≡ false) × (finish ≡ none)
Latched started abort finish = (abort ≡ false) × (finish ≡ none)
Latched finished abort finish = (abort ≡ false) × (is_some finish ≡ true)
Latched aborted abort finish = abort ≡ true
Latched rejected abort finish = (abort ≡ false) × (finish ≡ none)
Latched crc_rejected abort finish = (abort ≡ false) × (finish ≡ none)

-- An action is pending just while its reply is half written.
abbrev pub Paired : Option PendingAction → ℕ → Bool → Option ℕ → Type 0
Paired none pos abort finish = 4 ≤ pos
Paired (some action) pos abort finish = (pos < 4) × Latched action abort finish

-- The two latches exclude one another, and FINISH closed the session at the next number.
abbrev pub Closed : Option ℕ → Bool → Sequence → Type 0
Closed none abort expected = Unit {0}
Closed (some n) abort expected = (abort ≡ false) × (n ≡ expected.raw)

-- The reply that is under way: an ACK of the expected byte, of the latched number or of a session's
-- first number, or a NACK.
abbrev pub Replies : Option PendingAction → ℕ → FrameBytes → Type 0
Replies none n w = Unit {0}
Replies (some (deliver b)) n w = w ≡ to_bytes (ack_frame n)
Replies (some duplicate) n w = w ≡ to_bytes (ack_frame w.b1)
Replies (some started) n w = w ≡ to_bytes (ack_frame 0)
Replies (some finished) n w = w ≡ to_bytes (ack_frame n)
Replies (some aborted) n w = w ≡ to_bytes (ack_frame 0)
Replies (some rejected) n w = w ≡ to_bytes (nack_frame w.b1)
Replies (some crc_rejected) n w = w ≡ to_bytes (nack_frame n)

pub record IsValid {T : Type 0} (r : Receiver T) : Type 0 where
  pub expected_byte : r.expected_seq.raw < 256
  pub inside : r.out.pos ≤ 4
  pub paired : Paired r.pending r.out.pos r.abort_latched r.finish_seq
  pub closed : Closed r.finish_seq r.abort_latched r.expected_seq
  pub replies : Replies r.pending r.expected_seq.raw r.out.buf

module _ {T : Type 0} where
  pub new-IsValid : (t : T) → IsValid (new t)
  unfolding new
  new-IsValid t = ground arith

  module _ (r : Receiver T) (v : IsValid r) (quiet : 4 ≤ r.out.pos) where
    pub handle_start-IsValid : IsValid (handle_start r)
    unfolding handle_start to_bytes ack_frame nack_frame
    handle_start-IsValid = ground arith

    pub handle_abort-IsValid : IsValid (handle_abort r)
    unfolding handle_abort to_bytes ack_frame nack_frame
    handle_abort-IsValid = ground arith

    pub handle_finish-IsValid : (seq : ℕ) → IsValid (handle_finish r seq)
    unfolding handle_finish to_bytes ack_frame nack_frame
    handle_finish-IsValid seq = ground arith

    pub handle_data-IsValid : (f : Frame) → IsValid (handle_data r f)
    unfolding handle_data to_bytes ack_frame nack_frame
    handle_data-IsValid f = ground arith

module _ {T E : Type 0} (io : ByteTransport T E) where
  pump_reply-IsValid : (r : Receiver T) → IsValid r → IsValid (pump_reply io r).0
  unfolding pump_reply
  pump_reply-IsValid r v = ground arith

  on_frame-IsValid :
      (r : Receiver T) (t : FrameType) (f : Frame)
      → IsValid r
      → 4 ≤ r.out.pos
      → IsValid (on_frame io r t f).0
  unfolding on_frame settle_idle
  on_frame-IsValid r FrameType.dat f v q = pump_reply-IsValid _ (handle_data-IsValid r v q f)
  on_frame-IsValid r FrameType.start f v q = pump_reply-IsValid _ (handle_start-IsValid r v q)
  on_frame-IsValid r FrameType.finish f v q =
      pump_reply-IsValid _ (handle_finish-IsValid r v q f.seq)
  on_frame-IsValid r FrameType.abort f v q = pump_reply-IsValid _ (handle_abort-IsValid r v q)
  on_frame-IsValid r FrameType.ack f v q = ground arith
  on_frame-IsValid r FrameType.nack f v q = ground arith

  on_noise-IsValid :
      (r : Receiver T) (e : FrameError) → IsValid r → 4 ≤ r.out.pos → IsValid (on_noise io r e).0
  unfolding on_noise to_bytes nack_frame
  on_noise-IsValid r e v q =
      ground (
        arith,
        pump_reply-IsValid (begin_reply r (nack_frame r.expected_seq.raw) (reject_action e)),
      )

  on_push-IsValid :
      (r : Receiver T) (w : Option (Result Frame FrameError))
      → IsValid r
      → 4 ≤ r.out.pos
      → IsValid (on_push io r w).0
  unfolding on_push
  on_push-IsValid r none v q = v
  on_push-IsValid r (some (ok f)) v q =
      on_frame-IsValid (record r { state = validating }) f.frame_type f (ground arith) q
  on_push-IsValid r (some (err e)) v q =
      on_noise-IsValid (record r { state = validating }) e (ground arith) q

  on_read-IsValid :
      (r : Receiver T) (got : Option ℕ) → IsValid r → 4 ≤ r.out.pos → IsValid (on_read io r got).0
  unfolding on_read
  on_read-IsValid r none v q = ground arith
  on_read-IsValid r (some b) v q =
      on_push-IsValid (record r { assembler = (push r.assembler b).0 }) (push r.assembler b).1
        (ground arith) q

  idle-IsValid :
      (r : Receiver T)
      → IsValid r
      → 4 ≤ r.out.pos
      → IsValid (read io (record r { state = receiving }) >>= λ got r'. on_read io r' got).0
  unfolding read
  idle-IsValid r v q = elim (Result-cases (io.read_byte r.transport).1) [
    | inl (got, e) ↦
        rw (e, map_err)
          (on_read-IsValid
            (record r { state = receiving; transport = (io.read_byte r.transport).0 }) got
            (ground arith) q)
    | inr (x, e) ↦ rw (e, map_err) (ground arith)
  ]

  -- Every `poll` of a valid receiver leaves a valid receiver, whatever the transport answers,
  -- errors included: the number is a byte, an action is pending just while its reply is half
  -- written and agrees with the two latches, a latched FINISH has the expected number and excludes
  -- a latched ABORT, and the reply that is under way is the ACK or the NACK of its action.
  pub receiver_poll-IsValid : (r : Receiver T) → IsValid r → IsValid (poll io r).0
  unfolding poll
  receiver_poll-IsValid r v = ground (arith, pump_reply-IsValid r, idle-IsValid r)
