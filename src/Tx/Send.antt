-- ===== src/Tx/Send.antt =====
-- tx.rs: the blocking calls `send_start`, `send_byte`, `send_finish` and `send_abort`.
use psicose.Prelude.{ℕ, zero, suc, Option, none, some, Result, ok, err}
use psicose.Error.{Error}
use psicose.Transport.{ByteTransport}
use psicose.Tx.State.{Sender, TxPoll, pending, acked, session_ready, transfer_done}
use psicose.Tx.Offer.{offer_start, offer, offer_finish, offer_abort}
use psicose.Tx.Poll.{poll}

-- `none` is a loop that has used up its fuel; a call returns `some`.
abbrev pub Sent : Type 0 → Type 0
Sent E = Option (Result (Unit {0}) (Error E))

module _ {E : Type 0} where
  -- What the loop of `send_start` makes of a poll: `none` goes round again.
  unfoldable pub start_settles : TxPoll → Sent E
  start_settles pending = none
  start_settles session_ready = some (ok tt)
  start_settles acked = some (ok tt)
  start_settles transfer_done = some (ok tt)
  start_settles TxPoll.aborted = some (err Error.aborted)

  unfoldable pub byte_settles : TxPoll → Sent E
  byte_settles pending = none
  byte_settles acked = some (ok tt)
  byte_settles session_ready = some (ok tt)
  byte_settles transfer_done = some (ok tt)
  byte_settles TxPoll.aborted = some (err Error.aborted)

  unfoldable pub finish_settles : TxPoll → Sent E
  finish_settles pending = none
  finish_settles transfer_done = some (ok tt)
  finish_settles acked = some (ok tt)
  finish_settles session_ready = some (ok tt)
  finish_settles TxPoll.aborted = some (err Error.aborted)

  unfoldable pub abort_settles : TxPoll → Sent E
  abort_settles pending = none
  abort_settles TxPoll.aborted = some (ok tt)
  abort_settles acked = some (ok tt)
  abort_settles session_ready = some (ok tt)
  abort_settles transfer_done = some (ok tt)

module _ {T E : Type 0} (io : ByteTransport T E) where
  -- `loop { match self.poll()? { … } }`, on fuel.
  unfoldable pub await : ℕ → (TxPoll → Sent E) → Sender T → Sender T × Sent E
  await zero settles s = (s, none)
  await (suc fuel) settles s =
      let (s', r) = poll io s in
      elim r [
        | err e ↦ (s', some (err e))
        | ok p ↦ elim (settles p) [ some done ↦ (s', some done) | none ↦ await fuel settles s' ]
      ]

  -- `self.offer…()?; loop { … }`.
  unfoldable pub offered :
      ℕ → (TxPoll → Sent E) → Sender T × Result (Unit {0}) (Error E) → Sender T × Sent E
  offered fuel settles (s, ok u) = await fuel settles s
  offered fuel settles (s, err e) = (s, some (err e))

  unfoldable pub send_start : ℕ → Sender T → Sender T × Sent E
  unfolding offered
  send_start fuel s = offered fuel start_settles (offer_start s)

  unfoldable pub send_byte : ℕ → Sender T → ℕ → Sender T × Sent E
  unfolding offered
  send_byte fuel s b = offered fuel byte_settles (offer s b)

  unfoldable pub send_finish : ℕ → Sender T → Sender T × Sent E
  unfolding offered
  send_finish fuel s = offered fuel finish_settles (offer_finish s)

  unfoldable pub send_abort : ℕ → Sender T → Sender T × Sent E
  unfolding offered
  send_abort fuel s = offered fuel abort_settles (offer_abort s)
