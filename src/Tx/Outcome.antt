-- ===== src/Tx/Outcome.antt =====
-- tx.rs: what each result of `poll` says of the sender and of its flight.
use psicose.Prelude.{
  ℕ, ◌+◌, ◌%◌, true, Option, none, some, ◌≡◌, arith, Result, ok, err, inl, inr, Result-cases,
  map_err,
}
use psicose.Error.{
  Error, transport, crc, invalid_frame_type, bad_semantics, timeout, retries_exhausted,
  idle_budget_exhausted, not_idle, window_full,
}
use psicose.Transport.{ByteTransport}
use psicose.Protocol.Frame.{Frame, FrameError}
use psicose.Protocol.Assembler.{push}
use psicose.Tx.State.{
  Sender, no_mark, TxState, TxPoll, pending, acked, session_ready, transfer_done, InFlight,
  FlightKind, idle, finished, failed, dat, start, finish, abort,
}
use psicose.Tx.Poll.{
  on_attempt_failed, on_control, on_push, on_read, on_byte, on_silence, poll_write, poll_load,
  poll_read, poll,
}
use psicose.Tx.Valid.{IsValid, Flying}

-- The flight is the same frame, retries and ticks apart.
abbrev pub SameFlight : Option InFlight → Option InFlight → Type 0
SameFlight none none = Unit {0}
SameFlight none (some g) = ⊥
SameFlight (some f) none = ⊥
SameFlight (some f) (some g) = (g.kind ≡ f.kind) × (g.seq ≡ f.seq)

abbrev pub CarriesData : FlightKind → Type 0
CarriesData (dat b) = Unit {0}
CarriesData start = ⊥
CarriesData finish = ⊥
CarriesData abort = ⊥

abbrev pub FliesData : Option InFlight → Type 0
FliesData none = ⊥
FliesData (some f) = CarriesData f.kind

module _ {T : Type 0} where
  -- The sender rests without a flight.
  abbrev pub RestsIn : TxState → Sender T → Type 0
  RestsIn state s = (s.state ≡ state) × (s.inflight ≡ none)

  abbrev pub Keeps : Sender T → Sender T → Type 0
  Keeps s s' = (s'.seq.raw ≡ s.seq.raw) × SameFlight s.inflight s'.inflight

  Keeps-refl : (s : Sender T) → Keeps s s
  Keeps-refl s = ground arith

module _ {T E : Type 0} where
  abbrev pub Outcome : Sender T → Sender T → Result TxPoll (Error E) → Type 0
  Outcome s s' (ok pending) = Keeps s s'
  Outcome s s' (ok acked) =
      FliesData s.inflight × RestsIn idle s' × (s'.seq.raw ≡ (s.seq.raw + 1) % 256)
  Outcome s s' (ok session_ready) = RestsIn idle s' × (s'.seq.raw ≡ 0)
  Outcome s s' (ok transfer_done) = RestsIn finished s' × (s'.seq.raw ≡ s.seq.raw)
  Outcome s s' (ok TxPoll.aborted) = RestsIn TxState.aborted s'
  Outcome s s' (err (transport e)) = Keeps s s'
  Outcome s s' (err retries_exhausted) = RestsIn failed s'
  Outcome s s' (err crc) = ⊥
  Outcome s s' (err (invalid_frame_type b)) = ⊥
  Outcome s s' (err bad_semantics) = ⊥
  Outcome s s' (err timeout) = ⊥
  Outcome s s' (err idle_budget_exhausted) = ⊥
  Outcome s s' (err not_idle) = ⊥
  Outcome s s' (err window_full) = ⊥
  Outcome s s' (err Error.aborted) = ⊥

  abbrev pub Answers : Sender T → Sender T × Result TxPoll (Error E) → Type 0
  Answers s (s', r) = Outcome s s' r

module _ {T : Type 0} (E : Type 0) where
  on_control-Answers :
      (s : Sender T) (f : Frame) → Flying true s.inflight → Answers {E = E} s (on_control s f)
  unfolding on_control on_attempt_failed
  on_control-Answers s f w = ground arith

  on_silence-Answers : (s : Sender T) → Flying true s.inflight → Answers {E = E} s (on_silence s)
  unfolding on_silence
  on_silence-Answers s w = ground arith

  on_push-Answers :
      (s : Sender T) (r : Option (Result Frame FrameError))
      → Flying true s.inflight
      → Answers {E = E} s (on_push s r)
  unfolding on_push
  on_push-Answers s none w = Keeps-refl s
  on_push-Answers s (some (ok f)) w = on_control-Answers s f w
  on_push-Answers s (some (err e)) w = Keeps-refl s

  on_read-Answers :
      (s : Sender T) (got : Option ℕ) → Flying true s.inflight → Answers {E = E} s (on_read s got)
  unfolding on_read on_byte
  on_read-Answers s none w = on_silence-Answers s w
  on_read-Answers s (some b) w =
      on_push-Answers (record s { assembler = (push s.assembler b).0 }) (push s.assembler b).1 w

module _ {T E : Type 0} (io : ByteTransport T E) where
  poll_write-Answers : (s : Sender T) → Answers s (poll_write io s)
  unfolding poll_write
  poll_write-Answers s = ground arith

  poll_load-Answers : (s : Sender T) → Answers s (poll_load io s)
  unfolding poll_load
  poll_load-Answers s = ground arith

  poll_read-Answers : (s : Sender T) → Flying true s.inflight → Answers s (poll_read io s)
  unfolding poll_read
  poll_read-Answers s w = elim (Result-cases (io.read_byte s.transport).1) [
    | inl (got, e) ↦
        rw (e, map_err)
          (on_read-Answers E (record s { transport = (io.read_byte s.transport).0 }) got w)
    | inr (x, e) ↦ rw (e, map_err) (Keeps-refl s)
  ]

  -- On every result of a poll of a valid sender, over every transport: `Acked` ends a DATA
  -- flight and moves the number on by one modulo 256; `SessionReady` leaves an idle sender at
  -- number 0, `TransferDone` a finished one at the same number, `Aborted` an aborted one; a
  -- pending poll and a transport error keep the number and the frame in flight, or that there is
  -- none; `RetriesExhausted` leaves a failed sender without a flight. No other error arises.
  pub sender_poll-Answers : (s : Sender T) → IsValid s → Answers s (poll io s)
  unfolding poll
  sender_poll-Answers s v = ground (
    arith,
    poll_write-Answers (record s { mark = no_mark }),
    poll_load-Answers (record s { mark = no_mark }),
    poll_read-Answers (record s { mark = no_mark }),
  )
