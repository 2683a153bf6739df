-- ===== src/Window/Tx/Safe.antt =====
-- window/tx.rs: every poll of the windowed sender keeps the invariant of its slots.
use psicose.Prelude.{
  ℕ, inl, inr, true, false, ◌&&◌, Option, none, some, ◌==◌, Bool-cases, Option-cases, Result-cases,
  Result, ok, err, bind-ok, bind-err, subst, sym,
}
use psicose.Transport.{ByteTransport}
use psicose.Protocol.OutBuf
use psicose.Protocol.OutBuf.{peek, commit}
use psicose.Protocol.Frame.{Frame, FrameType, FrameError}
use psicose.Protocol.Assembler.{push}
use psicose.Tx.State.{failed, aborted, finished, same_state}
use psicose.Window.Tx.{WindowedSender, outstanding, force_abort, set_window_limit}
use psicose.Window.Tx.Reply.{next_to_write, load_slot, on_control, control, on_push, on_read}
use psicose.Window.Tx.Poll.{write, read, pump_out, poll_write, poll_read, poll_slots, poll}
use psicose.Window.Tx.Valid.{
  IsValid, force_abort-IsValid, set_window_limit-IsValid, offer-IsValid, offer_start-IsValid,
  offer_finish-IsValid, offer_abort-IsValid,
}
use psicose.Window.Tx.Offer.{offer_start, offer, offer_finish, offer_abort}
use psicose.Window.Tx.Replies.{
  finish_write-IsValid, load_slot-IsValid, on_ack-IsValid, on_nack-IsValid, tick_timeouts-IsValid,
}

module _ {T : Type 0} (E : Type 0) (size : ℕ) where
  control-IsValid :
      (t : FrameType) (seq : ℕ) (s : WindowedSender T)
      → IsValid size s
      → IsValid size (control {E = E} size t seq s).0
  unfolding control
  control-IsValid FrameType.ack seq s v = on_ack-IsValid E size s seq v
  control-IsValid FrameType.nack seq s v = on_nack-IsValid E size s seq v
  control-IsValid FrameType.abort seq s v = force_abort-IsValid size s v
  control-IsValid FrameType.dat seq s v = v
  control-IsValid FrameType.start seq s v = v
  control-IsValid FrameType.finish seq s v = v

  on_push-IsValid :
      (s : WindowedSender T) (w : Option (Result Frame FrameError))
      → IsValid size s
      → IsValid size (on_push {E = E} size s w).0
  unfolding on_push on_control
  on_push-IsValid s none v = v
  on_push-IsValid s (some (ok f)) v = control-IsValid f.frame_type f.seq s v
  on_push-IsValid s (some (err e)) v = v

  on_read-IsValid :
      (s : WindowedSender T) (got : Option ℕ)
      → IsValid size s
      → IsValid size (on_read {E = E} size s got).0
  unfolding on_read
  on_read-IsValid s (some b) v =
      on_push-IsValid (record s { assembler = (push s.assembler b).0 }) (push s.assembler b).1 v
  on_read-IsValid s none v = tick_timeouts-IsValid E size s v

module _ {T E : Type 0} (size : ℕ) (io : ByteTransport T E) where
  pump_out-IsValid : (s : WindowedSender T) → IsValid size s → IsValid size (pump_out io s).0
  unfolding pump_out write
  pump_out-IsValid s v = elim (Option-cases (peek s.out)) [
    | inl e ↦ rw (e, pump_out) v
    | inr (b, e) ↦ elim (Result-cases (io.write_byte s.transport b).1) [
      | inr (x, fails) ↦ rw (e, pump_out) (rw (fails, write) v)
      | inl (u, writes) ↦ rw (e, pump_out) (rw (writes, write) v)
    ]
  ]

  poll_write-IsValid : (s : WindowedSender T) → IsValid size s → IsValid size (poll_write io s).0
  unfolding poll_write
  poll_write-IsValid s v =
      let v' = pump_out-IsValid s v in
      elim (Result-cases (pump_out io s).1) [
        | inr (x, e) ↦ subst (λ y. IsValid size y.0) (sym (bind-err (pump_out io s) _ x e)) v'
        | inl (true, e) ↦
            subst (λ y. IsValid size y.0) (sym (bind-ok (pump_out io s) _ true e))
              (finish_write-IsValid size (pump_out io s).0 v')
        | inl (false, e) ↦
            subst (λ y. IsValid size y.0) (sym (bind-ok (pump_out io s) _ false e)) v'
      ]

  poll_read-IsValid : (s : WindowedSender T) → IsValid size s → IsValid size (poll_read io size s).0
  unfolding poll_read read
  poll_read-IsValid s v =
      let t = (io.read_byte s.transport).0 in
      elim (Result-cases (io.read_byte s.transport).1) [
        | inl (got, e) ↦ rw (e, read) (on_read-IsValid E size (record s { transport = t }) got v)
        | inr (x, e) ↦ rw (e, read) v
      ]

  poll_slots-IsValid :
      (s : WindowedSender T) → IsValid size s → IsValid size (poll_slots io size s).0
  unfolding poll_slots
  poll_slots-IsValid s v = elim (Option-cases (next_to_write s)) [
    | inl e ↦ rw (e, poll_slots) (poll_read-IsValid s v)
    | inr (i, e) ↦ elim (Bool-cases (load_slot s i).1) [
      | inl loaded ↦
          rw (e, poll_slots)
            (rw loaded (poll_write-IsValid (load_slot s i).0 (load_slot-IsValid size s i v)))
      | inr no_slot ↦ rw (e, poll_slots) (rw no_slot (load_slot-IsValid size s i v))
    ]
  ]

  -- Whatever the transport does, and whatever frames come in, a poll of the windowed sender keeps
  -- its slots in order: the numbers of the data frames in flight are among the `limit` numbers
  -- before the next one, no two slots carry the same number, so that an ACK names one slot, and a
  -- frame that opens, closes or cancels a session is the only one in flight.
  pub window_sender_poll-IsValid :
      (s : WindowedSender T) → IsValid size s → IsValid size (poll io size s).0
  unfolding poll
  window_sender_poll-IsValid s v = elim (Bool-cases (same_state s.state failed)) [
    | inl f ↦ rw (f, poll) v
    | inr f ↦ elim (Bool-cases (same_state s.state aborted && outstanding s == 0)) [
      | inl a ↦ rw (f, poll) (rw a v)
      | inr a ↦ elim (Bool-cases (same_state s.state finished && outstanding s == 0)) [
        | inl d ↦ rw (f, poll) (rw a (rw d v))
        | inr d ↦ elim (Bool-cases (OutBuf.is_idle s.out)) [
          | inl q ↦ rw (f, poll) (rw a (rw d (rw q (poll_slots-IsValid s v))))
          | inr q ↦ rw (f, poll) (rw a (rw d (rw q (poll_write-IsValid s v))))
        ]
      ]
    ]
  ]

  -- Each offer to the windowed sender, of a byte, a START, a FINISH or an ABORT, taken or refused, a
  -- local abort and a change of the limit keep its slots in order: the numbers of the data frames in
  -- flight are among the `limit` numbers before the next one, no two slots carry the same number,
  -- and a frame that opens, closes or cancels a session is the only one in flight.
  pub window_offers-IsValid :
      (s : WindowedSender T) (byte limit : ℕ)
      → IsValid size s
      → IsValid size (offer {E = E} s byte).0
        × IsValid size (offer_start {E = E} size s).0
        × IsValid size (offer_finish {E = E} s).0
        × IsValid size (offer_abort {E = E} size s).0
        × IsValid size (force_abort size s)
        × IsValid size (set_window_limit size s limit)
  window_offers-IsValid s byte limit v = (
    offer-IsValid E size s byte v,
    offer_start-IsValid E size s v,
    offer_finish-IsValid E size s v,
    offer_abort-IsValid E size s v,
    force_abort-IsValid size s v,
    set_window_limit-IsValid size s limit v,
  )
