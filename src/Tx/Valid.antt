-- ===== src/Tx/Valid.antt =====
-- tx.rs: the sender's invariant, kept by every method over every transport.
use psicose.Prelude.{
  ℕ, ◌≤◌, ◌<◌, Bool, true, false, Option, none, some, ◌≡◌, arith, Result, ok, err, inl, inr,
  Result-cases, map_err,
}
use psicose.Timeout.{RetryPolicy}
use psicose.Transport.{ByteTransport}
use psicose.Protocol.Sequence.{Sequence}
use psicose.Protocol.Frame.{Frame, FrameError}
use psicose.Protocol.OutBuf.{OutBuf}
use psicose.Protocol.Assembler.{push}
use psicose.Tx.State.{
  Sender, TxState, no_mark, InFlight, with_policy, force_abort, idle, sending, waiting_ack,
  retrying, finished, aborted, failed,
}
use psicose.Tx.Offer.{offer_start, offer, offer_finish, offer_abort}
use psicose.Tx.Poll.{
  on_attempt_failed, on_control, on_push, on_read, on_byte, on_silence, poll_write, poll_load,
  poll_read, poll,
}

-- There is a flight, and it waits for its reply or not.
abbrev pub Flying : Bool → Option InFlight → Type 0
Flying waiting none = ⊥
Flying waiting (some flight) = flight.waiting ≡ waiting

-- What each state says of the flight and of the outgoing frame.
abbrev pub Shape : TxState → Option InFlight → OutBuf → Type 0
Shape idle flight out = (flight ≡ none) × (4 ≤ out.pos)
Shape sending flight out = Flying false flight
Shape waiting_ack flight out = Flying true flight × (4 ≤ out.pos)
Shape retrying flight out = Flying false flight × (4 ≤ out.pos)
Shape finished flight out = (flight ≡ none) × (4 ≤ out.pos)
Shape aborted flight out = (flight ≡ none) × (4 ≤ out.pos)
Shape failed flight out = (flight ≡ none) × (4 ≤ out.pos)

-- A flight carries the sender's number, and has no more retries left than the policy gives.
abbrev pub FlightFits : Option InFlight → Sequence → RetryPolicy → Type 0
FlightFits none seq policy = Unit {0}
FlightFits (some flight) seq policy =
    (flight.seq ≡ seq.raw) × (flight.retries_left ≤ policy.max_retries)

pub record IsValid {T : Type 0} (s : Sender T) : Type 0 where
  pub seq_byte : s.seq.raw < 256
  pub inside : s.out.pos ≤ 4
  pub shape : Shape s.state s.inflight s.out
  pub fits : FlightFits s.inflight s.seq s.retry_policy

module _ {T : Type 0} where
  pub with_policy-IsValid : (t : T) (policy : RetryPolicy) → IsValid (with_policy t policy)
  unfolding with_policy
  with_policy-IsValid t policy = ground arith

  pub force_abort-IsValid : (s : Sender T) → IsValid s → IsValid (force_abort s)
  unfolding force_abort
  force_abort-IsValid s v = ground arith

module _ {T : Type 0} (E : Type 0) where
  pub offer_start-IsValid : (s : Sender T) → IsValid s → IsValid (offer_start {E = E} s).0
  unfolding offer_start
  offer_start-IsValid s v = ground arith

  pub offer-IsValid : (s : Sender T) (b : ℕ) → IsValid s → IsValid (offer {E = E} s b).0
  unfolding offer
  offer-IsValid s b v = ground arith

  pub offer_finish-IsValid : (s : Sender T) → IsValid s → IsValid (offer_finish {E = E} s).0
  unfolding offer_finish
  offer_finish-IsValid s v = ground arith

  pub offer_abort-IsValid : (s : Sender T) → IsValid s → IsValid (offer_abort {E = E} s).0
  unfolding offer_abort
  offer_abort-IsValid s v = ground arith

  pub on_control-IsValid :
      (s : Sender T) (f : Frame)
      → IsValid s
      → Flying true s.inflight
      → 4 ≤ s.out.pos
      → IsValid (on_control {E = E} s f).0
  unfolding on_control on_attempt_failed
  on_control-IsValid s f v w o = ground arith

  pub on_attempt_failed-IsValid :
      (s : Sender T)
      → IsValid s
      → Flying true s.inflight
      → 4 ≤ s.out.pos
      → IsValid (on_attempt_failed {E = E} s).0
  unfolding on_attempt_failed
  on_attempt_failed-IsValid s v w o = ground arith

  on_silence-IsValid :
      (s : Sender T)
      → IsValid s
      → Flying true s.inflight
      → 4 ≤ s.out.pos
      → IsValid (on_silence {E = E} s).0
  unfolding on_silence
  on_silence-IsValid s v w o = ground arith

  on_push-IsValid :
      (s : Sender T) (r : Option (Result Frame FrameError))
      → IsValid s
      → Flying true s.inflight
      → 4 ≤ s.out.pos
      → IsValid (on_push {E = E} s r).0
  unfolding on_push
  on_push-IsValid s none v w o = v
  on_push-IsValid s (some (ok f)) v w o = on_control-IsValid s f v w o
  on_push-IsValid s (some (err e)) v w o = v

  on_read-IsValid :
      (s : Sender T) (got : Option ℕ)
      → IsValid s
      → Flying true s.inflight
      → 4 ≤ s.out.pos
      → IsValid (on_read {E = E} s got).0
  unfolding on_read on_byte
  on_read-IsValid s none v w o = on_silence-IsValid s v w o
  on_read-IsValid s (some b) v w o =
      on_push-IsValid (record s { assembler = (push s.assembler b).0 }) (push s.assembler b).1
        (ground arith) w o

module _ {T E : Type 0} (io : ByteTransport T E) where
  poll_write-IsValid :
      (s : Sender T)
      → IsValid s
      → Flying false s.inflight
      → s.out.pos < 4
      → IsValid (poll_write io s).0
  unfolding poll_write
  poll_write-IsValid s v w o = ground arith

  poll_load-IsValid :
      (s : Sender T) → IsValid s → Flying false s.inflight → IsValid (poll_load io s).0
  unfolding poll_load
  poll_load-IsValid s v w = ground arith

  poll_read-IsValid :
      (s : Sender T)
      → IsValid s
      → Flying true s.inflight
      → 4 ≤ s.out.pos
      → IsValid (poll_read io s).0
  unfolding poll_read
  poll_read-IsValid s v w o = elim (Result-cases (io.read_byte s.transport).1) [
    | inl (got, e) ↦
        rw (e, map_err)
          (on_read-IsValid E (record s { transport = (io.read_byte s.transport).0 }) got
            (ground arith) w o)
    | inr (x, e) ↦ rw (e, map_err) (ground arith)
  ]

  -- Every `poll` of a valid sender leaves a valid sender, whatever the transport answers, errors
  -- included: the number is a byte, the write position is inside the frame, the state agrees with
  -- the flight and the buffer, and a flight has the sender's number and at most the policy's
  -- retries.
  pub sender_poll-IsValid : (s : Sender T) → IsValid s → IsValid (poll io s).0
  unfolding poll
  sender_poll-IsValid s v = ground (
    arith,
    poll_write-IsValid (record s { mark = no_mark }),
    poll_load-IsValid (record s { mark = no_mark }),
    poll_read-IsValid (record s { mark = no_mark }),
  )
