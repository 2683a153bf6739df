-- ===== src/Window/Tx/Poll.antt =====
-- window/tx.rs: `poll`, one byte written or one byte read.
use psicose.Prelude.{
  ℕ, Bool, true, not, ◌&&◌, Option, none, some, ◌==◌, if◌then◌else◌, Result, ok, err, map_err,
  ◌>>=◌,
}
use psicose.Error.{Error}
use psicose.Transport.{ByteTransport}
use psicose.Protocol.OutBuf.{OutBuf, peek, commit, load}
use psicose.Protocol.OutBuf
use psicose.Tx.State.{finished, aborted, failed, TxPoll, pending, transfer_done, same_state}
use psicose.Window.Tx.{WindowedSender, outstanding}
use psicose.Window.Tx.Reply.{next_to_write, load_slot, finish_write, on_read}

module _ {T E : Type 0} (io : ByteTransport T E) where
  unfoldable pub write : WindowedSender T → ℕ → WindowedSender T × Result (Unit {0}) (Error E)
  write s byte =
      let (t, r) = io.write_byte s.transport byte in
      (record s { transport = t }, map_err Error.transport r)

  unfoldable pub read : WindowedSender T → WindowedSender T × Result (Option ℕ) (Error E)
  read s =
      let (t, r) = io.read_byte s.transport in
      (record s { transport = t }, map_err Error.transport r)

  unfoldable pub pump_out : WindowedSender T → WindowedSender T × Result Bool (Error E)
  unfolding write peek commit OutBuf.is_idle
  pump_out s = elim (peek s.out) [
    | none ↦ (s, ok true)
    | some byte ↦ write s byte >>= λ _ s'.
        let out = commit s'.out in (record s' { out = out }, ok (OutBuf.is_idle out))
  ]

  -- A byte of the frame goes out; after the last one the frame is on the wire.
  unfoldable pub poll_write : WindowedSender T → WindowedSender T × Result TxPoll (Error E)
  unfolding pump_out finish_write
  poll_write s = pump_out s >>= λ done s'. (if done then finish_write s' else s', ok pending)

  unfoldable pub poll_read : ℕ → WindowedSender T → WindowedSender T × Result TxPoll (Error E)
  unfolding read on_read
  poll_read size s = read s >>= λ got s'. on_read size s' got

  -- `poll` of a sender with nothing half written.
  unfoldable pub poll_slots : ℕ → WindowedSender T → WindowedSender T × Result TxPoll (Error E)
  unfolding next_to_write load_slot poll_write poll_read
  poll_slots size s = elim (next_to_write s) [
    | none ↦ poll_read size s
    | some i ↦
        let (s', loaded) = load_slot s i in if loaded then poll_write s' else (s', ok pending)
  ]

  unfoldable pub poll : ℕ → WindowedSender T → WindowedSender T × Result TxPoll (Error E)
  unfolding outstanding OutBuf.is_idle poll_write poll_slots
  poll size s =
      if same_state s.state failed
      then (s, err Error.retries_exhausted)
      else if same_state s.state aborted && outstanding s == 0
      then (s, ok TxPoll.aborted)
      else if same_state s.state finished && outstanding s == 0
      then (s, ok transfer_done)
      else if not (OutBuf.is_idle s.out)
      then poll_write s
      else poll_slots size s
