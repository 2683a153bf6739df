-- ===== src/Window/PumpEvents.antt =====
-- pump.rs: which bytes a windowed pump reports.
use psicose.Prelude.{ℕ, ◌≡◌, refl, ◌∙◌, inl, inr, false, not, ◌&&◌, ok, Result-cases}
use psicose.Transport.{ByteTransport}
use psicose.Rx.State.{PollOutcome, delivered}
use psicose.Pump.Poll.{count_rx, count_mark, is_transfer_done, saturating_succ_u64}
use psicose.Pump.Events.{Hands, counted, event-Hands, err-Hands, Hands-beside, count_rx-counted}
use psicose.Window.Tx.{WindowedSender, take_mark}
use psicose.Window.Tx.Poll as SenderPoll
use psicose.Window.Rx.Poll as ReceiverPoll
use psicose.Window.Pump.{WindowedPump, cancel, report, poll_tx, poll_rx}
use psicose.Window.Pump

module _ {T R E : Type 0} (size : ℕ) (tio : ByteTransport T E) (rio : ByteTransport R E) where
  uncancelled :
      (tx : WindowedSender T) (o : PollOutcome) (b : ℕ)
      → o ≡ delivered b
      → (SenderPoll.poll tio size tx).1 ≡ (SenderPoll.poll tio size (cancel size tx o)).1
  unfolding cancel
  uncancelled tx o b e = rw e refl

  poll_tx-Hands :
      (p : WindowedPump T R) (o : PollOutcome)
      → Hands (ok o) (SenderPoll.poll tio size p.tx).1 (poll_tx size tio rio p o).1
        × ((poll_tx size tio rio p o).0.stats.bytes_delivered ≡ p.stats.bytes_delivered)
  unfolding poll_tx report count_mark
  poll_tx-Hands p o = elim (Result-cases (SenderPoll.poll tio size p.tx).1) [
    | inr (x, e) ↦ rw (e, poll_tx) (err-Hands E o x, refl)
    | inl (t, e) ↦
        let tx = (SenderPoll.poll tio size p.tx).0 in
        rw (e, poll_tx)
          (event-Hands E o t (is_transfer_done t && not p.tx_done_seen) (take_mark tx).1, refl)
  ]

  -- A poll of a windowed pump that holds no completion back, whatever the transports do. Where its
  -- receiver delivers a byte, that byte is the answer of the poll, except that the windowed sender's
  -- own poll in the same step may fail, and its error is the answer then, or report an abort, and
  -- the answer is that it is aborted; the byte is counted once in each case. No byte is reported
  -- that the receiver has not delivered in this poll, and none else is counted. An error of the
  -- receiver is the answer.
  pub windowed_pump_poll-Hands :
      (p : WindowedPump T R)
      → p.pending_completed ≡ false
      → Hands
          (ReceiverPoll.poll size rio p.rx).1
          (SenderPoll.poll tio size p.tx).1
          (Pump.poll size tio rio p).1
        × ((Pump.poll size tio rio p).0.stats.bytes_delivered
            ≡ counted p.stats.bytes_delivered (ReceiverPoll.poll size rio p.rx).1)
  unfolding Pump.poll poll_rx
  windowed_pump_poll-Hands p free = elim (Result-cases (ReceiverPoll.poll size rio p.rx).1) [
    | inr (x, e) ↦ rw (free, Pump.poll) (rw (e, poll_rx) (refl, refl))
    | inl (o, e) ↦
        let rx = (ReceiverPoll.poll size rio p.rx).0 in
        let s = record (p.stats) { ticks = saturating_succ_u64 p.stats.ticks } in
        let p' : WindowedPump T R = record p {
          pending_completed = false;
          rx = rx;
          stats = count_rx s o;
          tx = cancel size p.tx o;
        } in
        let (hands, same) = poll_tx-Hands p' o in
        let tx = (SenderPoll.poll tio size p.tx).1 in
        let hands' = Hands-beside E o _ tx _ (uncancelled p.tx o) hands in
        rw (free, Pump.poll) (rw (e, poll_rx) (hands', same ∙ count_rx-counted E s o))
  ]
