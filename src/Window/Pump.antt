-- ===== src/Window/Pump.antt =====
-- pump.rs: `WindowedPump`, a windowed sender and a windowed receiver that are polled together.
use psicose.Prelude.{ℕ, Bool, false, not, ◌&&◌, ◌||◌, if◌then◌else◌, Result, ok, err}
use psicose.Error.{Error}
use psicose.Timeout.{RetryPolicy}
use psicose.Transport.{ByteTransport}
use psicose.Tx.State.{TxPoll}
use psicose.Rx.State.{PollOutcome, delivered, duplicate_ignored, transfer_finished}
use psicose.Pump.{SessionStats, no_stats}
use psicose.Pump.Poll.{
  PumpEvent, completed, saturating_succ_u64, is_acked, is_transfer_done, count_rx, count_mark,
  event, keeps_back,
}
use psicose.Window.Tx.{WindowedSender}
use psicose.Window.Tx
use psicose.Window.Tx.Offer.{offer_abort}
use psicose.Window.Tx.Poll as SenderPoll
use psicose.Window.Rx.{WindowedReceiver}
use psicose.Window.Rx
use psicose.Window.Rx.Poll as ReceiverPoll

pub record WindowedPump (T R : Type 0) : Type 0 where
  pub tx : WindowedSender T
  pub rx : WindowedReceiver R
  pub stats : SessionStats
  pub last_acked : Bool
  pub tx_done_seen : Bool
  pub pending_completed : Bool

-- An abort of the peer cancels the sender, unless it opens or cancels a session itself.
unfoldable pub cancel : {T : Type 0} → ℕ → WindowedSender T → PollOutcome → WindowedSender T
unfolding Tx.holds_session_control Tx.force_abort
cancel size tx PollOutcome.aborted =
    if Tx.holds_session_control tx then tx else Tx.force_abort size tx
cancel size tx (delivered byte) = tx
cancel size tx duplicate_ignored = tx
cancel size tx PollOutcome.rejected = tx
cancel size tx PollOutcome.crc_rejected = tx
cancel size tx PollOutcome.pending = tx
cancel size tx PollOutcome.started = tx
cancel size tx transfer_finished = tx

module _ {T R : Type 0} where
  unfoldable pub new : WindowedSender T → WindowedReceiver R → WindowedPump T R
  new tx rx = record {
    tx = tx;
    rx = rx;
    stats = no_stats;
    last_acked = false;
    tx_done_seen = false;
    pending_completed = false;
  }

  unfoldable pub on : ℕ → T → R → WindowedPump T R
  unfolding new Tx.new Rx.new
  on size tx rx = new (Tx.new size tx) (Rx.new size rx)

  unfoldable pub on_with : ℕ → T → R → RetryPolicy → WindowedPump T R
  unfolding new Tx.with_policy Rx.new
  on_with size tx rx policy = new (Tx.with_policy size tx policy) (Rx.new size rx)

  -- Both halves take the limit, or either leaves it when it is busy.
  unfoldable pub set_window_limit : ℕ → WindowedPump T R → ℕ → WindowedPump T R
  unfolding Tx.set_window_limit Rx.set_window_limit
  set_window_limit size p limit = record p {
    tx = Tx.set_window_limit size p.tx limit;
    rx = Rx.set_window_limit size p.rx limit;
  }

  unfoldable pub abort :
      {E : Type 0} → ℕ → WindowedPump T R → WindowedPump T R × Result (Unit {0}) (Error E)
  unfolding offer_abort
  abort size p = let (tx, r) = offer_abort size p.tx in (record p { tx = tx }, r)

  -- Both halves have stepped.
  unfoldable pub report : WindowedPump T R → PollOutcome → TxPoll → WindowedPump T R × PumpEvent
  unfolding Tx.take_mark count_mark event keeps_back
  report p o t =
      let (tx, mark) = Tx.take_mark p.tx in
      let edge = is_transfer_done t && not p.tx_done_seen in
      (
        record p {
          tx = tx;
          last_acked = is_acked t;
          stats = count_mark p.stats mark;
          tx_done_seen = is_transfer_done t;
          pending_completed = keeps_back o t edge || p.pending_completed;
        },
        event o t edge mark,
      )

module _ {T R E : Type 0} (size : ℕ) (tio : ByteTransport T E) (rio : ByteTransport R E) where
  -- The receiver has stepped with this outcome.
  unfoldable pub poll_tx :
      WindowedPump T R → PollOutcome → WindowedPump T R × Result PumpEvent (Error E)
  unfolding report
  poll_tx p o =
      let (tx, r) = SenderPoll.poll tio size p.tx in
      elim r [
        | err e ↦ (record p { tx = tx }, err e)
        | ok t ↦ let (p', event) = report (record p { tx = tx }) o t in (p', ok event)
      ]

  unfoldable pub poll_rx : WindowedPump T R → WindowedPump T R × Result PumpEvent (Error E)
  unfolding poll_tx count_rx cancel
  poll_rx p =
      let (rx, r) = ReceiverPoll.poll size rio p.rx in
      elim r [
        | err e ↦ (record p { rx = rx }, err e)
        | ok o ↦
            poll_tx (record p { rx = rx; stats = count_rx p.stats o; tx = cancel size p.tx o }) o
      ]

  unfoldable pub poll : WindowedPump T R → WindowedPump T R × Result PumpEvent (Error E)
  unfolding poll_rx
  poll p0 =
      let p = record p0 {
        stats = record (p0.stats) { ticks = saturating_succ_u64 p0.stats.ticks };
      } in
      if p.pending_completed
      then (record p { pending_completed = false }, ok completed)
      else poll_rx p
