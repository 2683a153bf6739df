-- ===== src/Tx/Poll.antt =====
-- tx.rs: `poll`, one byte written or one byte read.
use psicose.Prelude.{
  ℕ, ◌-◌, Bool, true, false, not, ◌&&◌, Option, none, some, leb, ◌==◌, if◌then◌else◌, Result, ok,
  err, map_err, ◌>>=◌,
}
use psicose.Error.{Error}
use psicose.Transport.{ByteTransport}
use psicose.Protocol.Sequence
use psicose.Protocol.Frame.{Frame, FrameType, FrameError}
use psicose.Protocol.OutBuf.{peek, commit}
use psicose.Protocol.OutBuf
use psicose.Protocol.Assembler.{push}
use psicose.Tx.State.{
  Sender, idle, sending, retrying, finished, aborted, failed, TxPoll, pending, acked, session_ready,
  transfer_done, FlightKind, dat, start, finish, abort, same_state, is_none, no_mark,
  saturating_succ_u16, force_abort, load_flight_frame, frame_sent, flight_seq, restart_ticks,
}

module _ {T E : Type 0} where
  unfoldable pub on_attempt_failed : Sender T → Sender T × Result TxPoll (Error E)
  on_attempt_failed s = elim s.inflight [
    | none ↦ (s, ok pending)
    | some flight ↦
        if flight.retries_left == 0
        then (record s { inflight = none; state = failed }, err Error.retries_exhausted)
        else (
          record s {
            inflight = some (record flight {
              retries_left = flight.retries_left - 1;
              waiting = false;
              empty_ticks = 0;
            });
            state = retrying;
            mark = record (s.mark) { retransmit = true };
          },
          ok pending,
        )
  ]

  unfoldable pub acknowledge : Sender T → FlightKind → Sender T × Result TxPoll (Error E)
  unfolding Sequence.advance Sequence.new
  acknowledge s (dat byte) =
      (record s { inflight = none; seq = (Sequence.advance s.seq).0; state = idle }, ok acked)
  acknowledge s start =
      (record s { inflight = none; seq = Sequence.new; state = idle }, ok session_ready)
  acknowledge s finish = (record s { inflight = none; state = finished }, ok transfer_done)
  acknowledge s abort = (record s { inflight = none; state = aborted }, ok TxPoll.aborted)

  unfoldable pub on_ack : Sender T → Sender T × Result TxPoll (Error E)
  unfolding acknowledge
  on_ack s = elim s.inflight [ none ↦ (s, ok pending) | some flight ↦ acknowledge s flight.kind ]

  unfoldable pub control : FrameType → ℕ → Sender T → Sender T × Result TxPoll (Error E)
  unfolding flight_seq restart_ticks force_abort on_ack
  control FrameType.abort r s = (force_abort s, ok TxPoll.aborted)
  control FrameType.ack r s = if r == flight_seq s then on_ack s else (restart_ticks s, ok pending)
  control FrameType.nack r s =
      if r == flight_seq s
      then on_attempt_failed (record s { mark = record (s.mark) { nack = true } })
      else (restart_ticks s, ok pending)
  control FrameType.dat r s = (s, ok pending)
  control FrameType.start r s = (s, ok pending)
  control FrameType.finish r s = (s, ok pending)

  unfoldable pub on_control : Sender T → Frame → Sender T × Result TxPoll (Error E)
  unfolding control
  on_control s f = control f.frame_type f.seq s

  -- A frame that decodes is handled, all else is passed over.
  unfoldable pub on_push :
      Sender T → Option (Result Frame FrameError) → Sender T × Result TxPoll (Error E)
  on_push s none = (s, ok pending)
  on_push s (some (ok f)) = on_control s f
  on_push s (some (err e)) = (s, ok pending)

  unfoldable pub on_byte : Sender T → ℕ → Sender T × Result TxPoll (Error E)
  on_byte s byte = let (a, r) = push s.assembler byte in on_push (record s { assembler = a }) r

  -- No byte came in.
  unfoldable pub on_silence : Sender T → Sender T × Result TxPoll (Error E)
  unfolding on_attempt_failed
  on_silence s = elim s.inflight [
    | none ↦ (s, ok pending)
    | some flight ↦
        let ticks = saturating_succ_u16 flight.empty_ticks in
        let s' = record s { inflight = some (record flight { empty_ticks = ticks }) } in
        if leb s.retry_policy.timeout_ticks ticks then on_attempt_failed s' else (s', ok pending)
  ]

  unfoldable pub on_read : Sender T → Option ℕ → Sender T × Result TxPoll (Error E)
  on_read s (some byte) = on_byte s byte
  on_read s none = on_silence s

module _ {T E : Type 0} (io : ByteTransport T E) where
  -- `self.transport.write_byte(byte).map_err(Error::Transport)`.
  unfoldable pub write : Sender T → ℕ → Sender T × Result (Unit {0}) (Error E)
  write s byte =
      let (t, r) = io.write_byte s.transport byte in
      (record s { transport = t }, map_err Error.transport r)

  unfoldable pub read : Sender T → Sender T × Result (Option ℕ) (Error E)
  read s =
      let (t, r) = io.read_byte s.transport in
      (record s { transport = t }, map_err Error.transport r)

  unfoldable pub pump_out : Sender T → Sender T × Result Bool (Error E)
  unfolding write peek commit OutBuf.is_idle
  pump_out s = elim (peek s.out) [
    | none ↦ (s, ok true)
    | some byte ↦ write s byte >>= λ _ s'.
        let out = commit s'.out in (record s' { out = out }, ok (OutBuf.is_idle out))
  ]

  -- A frame is half written.
  unfoldable pub poll_write : Sender T → Sender T × Result TxPoll (Error E)
  unfolding pump_out frame_sent
  poll_write s = pump_out s >>= λ done s'.
      if not done then (record s' { state = sending }, ok pending) else (frame_sent s', ok pending)

  -- A flight has yet to be written.
  unfoldable pub poll_load : Sender T → Sender T × Result TxPoll (Error E)
  unfolding pump_out load_flight_frame frame_sent
  poll_load s = pump_out (load_flight_frame s) >>= λ done s'.
      if not done then (s', ok pending) else (frame_sent s', ok pending)

  -- A flight waits for its reply.
  unfoldable pub poll_read : Sender T → Sender T × Result TxPoll (Error E)
  unfolding read
  poll_read s = read s >>= λ got s'. on_read s' got

  unfoldable pub poll : Sender T → Sender T × Result TxPoll (Error E)
  unfolding OutBuf.is_idle
  poll s0 =
      let s = record s0 { mark = no_mark } in
      if same_state s.state failed
      then (s, err Error.retries_exhausted)
      else if same_state s.state aborted && is_none s.inflight
      then (s, ok TxPoll.aborted)
      else if same_state s.state finished && is_none s.inflight
      then (s, ok transfer_done)
      else if not (OutBuf.is_idle s.out)
      then poll_write s
      else elim s.inflight [
        | none ↦ (s, ok pending)
        | some flight ↦ if not flight.waiting then poll_load s else poll_read s
      ]
