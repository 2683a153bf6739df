-- ===== src/Window/Tx/Send.antt =====
-- window/tx.rs: the blocking calls, on fuel; `none` is a loop that has used up its fuel.
use psicose.Prelude.{
  Bool, true, false, ℕ, zero, suc, ◌+◌, ◌-◌, ◌%◌, none, some, ltb, if◌then◌else◌, Result, ok, err,
}
use psicose.Error.{Error, not_idle, window_full}
use psicose.Transport.{ByteTransport}
use psicose.Protocol.Sequence.{current}
use psicose.Tx.State.{TxPoll, pending, acked, session_ready, transfer_done, is_none}
use psicose.Tx.Send.{Sent, start_settles, finish_settles, abort_settles}
use psicose.Window.Tx.{WindowedSender, outstanding, find_seq}
use psicose.Window.Tx.Offer.{offer_start, offer, offer_finish, offer_abort}
use psicose.Window.Tx.Poll.{poll}

module _ {T E : Type 0} where
  -- The loop of `send_byte` ends at an ACK that has emptied the slot of its own byte.
  unfoldable pub byte_settles : ℕ → WindowedSender T → TxPoll → Sent E
  unfolding find_seq
  byte_settles seq s pending = none
  byte_settles seq s acked = if is_none (find_seq s seq) then some (ok tt) else none
  byte_settles seq s session_ready = some (ok tt)
  byte_settles seq s transfer_done = some (ok tt)
  byte_settles seq s TxPoll.aborted = some (err Error.aborted)

  -- Which refusals of an offer are waited out.
  unfoldable pub waits_window : WindowedSender T → Error E → Bool
  waits_window s window_full = true
  waits_window s (Error.transport e) = false
  waits_window s Error.crc = false
  waits_window s (Error.invalid_frame_type b) = false
  waits_window s Error.bad_semantics = false
  waits_window s Error.timeout = false
  waits_window s Error.retries_exhausted = false
  waits_window s Error.idle_budget_exhausted = false
  waits_window s not_idle = false
  waits_window s Error.aborted = false

  unfoldable pub waits_empty : WindowedSender T → Error E → Bool
  unfolding outstanding
  waits_empty s not_idle = ltb 0 (outstanding s)
  waits_empty s (Error.transport e) = false
  waits_empty s Error.crc = false
  waits_empty s (Error.invalid_frame_type b) = false
  waits_empty s Error.bad_semantics = false
  waits_empty s Error.timeout = false
  waits_empty s Error.retries_exhausted = false
  waits_empty s Error.idle_budget_exhausted = false
  waits_empty s window_full = false
  waits_empty s Error.aborted = false

module _ {T E : Type 0} (size : ℕ) (io : ByteTransport T E) where
  -- `loop { match self.poll()? { … } }`.
  unfoldable pub await :
      ℕ → (WindowedSender T → TxPoll → Sent E) → WindowedSender T → WindowedSender T × Sent E
  await zero settles s = (s, none)
  await (suc fuel) settles s =
      let (s', r) = poll io size s in
      elim r [
        | err e ↦ (s', some (err e))
        | ok p ↦ elim (settles s' p) [ some done ↦ (s', some done) | none ↦ await fuel settles s' ]
      ]

  -- `self.offer…()?; loop { … }`.
  unfoldable pub offered :
      ℕ
      → (TxPoll → Sent E)
      → WindowedSender T × Result (Unit {0}) (Error E)
      → WindowedSender T × Sent E
  offered fuel settles (s, ok u) = await fuel (λ s' p. settles p) s
  offered fuel settles (s, err e) = (s, some (err e))

  -- A loop that offers until the offer is taken or refused for good, and polls in between.
  unfoldable pub insist :
      ℕ
      → (WindowedSender T → WindowedSender T × Result (Unit {0}) (Error E))
      → (WindowedSender T → Error E → Bool)
      → WindowedSender T
      → WindowedSender T × Sent E
  insist zero try waits s = (s, none)
  insist (suc fuel) try waits s =
      let (s', r) = try s in
      elim r [
        | ok u ↦ (s', some (ok tt))
        | err e ↦ elim (waits s' e) [
          | false ↦ (s', some (err e))
          | true ↦
              let (s'', polled) = poll io size s' in
              elim polled [ ok p ↦ insist fuel try waits s'' | err x ↦ (s'', some (err x)) ]
        ]
      ]

  -- The loop that follows one that has ended well.
  unfoldable pub afterwards :
      (WindowedSender T → WindowedSender T × Sent E)
      → WindowedSender T × Sent E
      → WindowedSender T × Sent E
  afterwards more (s, none) = (s, none)
  afterwards more (s, some (err e)) = (s, some (err e))
  afterwards more (s, some (ok u)) = more s

  unfoldable pub send_start : ℕ → WindowedSender T → WindowedSender T × Sent E
  unfolding offered offer_start
  send_start fuel s = offered fuel start_settles (offer_start size s)

  unfoldable pub send_byte : ℕ → WindowedSender T → ℕ → WindowedSender T × Sent E
  unfolding insist offer afterwards await
  send_byte fuel s byte =
      afterwards
        (λ s'. let seq = (current s'.next_seq + 256 - 1) % 256 in await fuel (byte_settles seq) s')
        (insist fuel (λ s'. offer s' byte) waits_window s)

  unfoldable pub send_finish : ℕ → WindowedSender T → WindowedSender T × Sent E
  unfolding insist offer_finish afterwards await
  send_finish fuel s =
      afterwards (await fuel (λ s' p. finish_settles p)) (insist fuel offer_finish waits_empty s)

  unfoldable pub send_abort : ℕ → WindowedSender T → WindowedSender T × Sent E
  unfolding offered offer_abort
  send_abort fuel s = offered fuel abort_settles (offer_abort size s)
