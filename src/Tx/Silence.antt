-- ===== src/Tx/Silence.antt =====
-- tx.rs against a peer that never answers: a blocking call gives up, and how soon.
use psicose.Prelude.{
  ℕ, ◌+◌, ◌*◌, ◌^◌, ◌<◌, false, none, some, ◌≡◌, refl, arith, Result, ok, err, ap,
}
use psicose.Error.{Error}
use psicose.Timeout.{RetryPolicy}
use psicose.Transport.{ByteTransport}
use psicose.Tx.State.{
  Sender, TxPoll, pending, InFlight, failed, idle, FlightKind, dat, start, finish, abort,
}
use psicose.Tx.Offer.{offer_start, offer, offer_finish, offer_abort}
use psicose.Tx.Valid.{
  IsValid, offer_start-IsValid, offer-IsValid, offer_finish-IsValid, offer_abort-IsValid,
}
use psicose.Tx.Send.{
  Sent, offered, send_start, send_byte, send_finish, send_abort, start_settles, byte_settles,
  finish_settles, abort_settles,
}
use psicose.Tx.Patience.{IsSilent, attempt, timeout_of, await-silent}

abbrev fresh : RetryPolicy → FlightKind → ℕ → InFlight
fresh policy kind seq = record {
  kind = kind;
  seq = seq;
  retries_left = policy.max_retries;
  waiting = false;
  empty_ticks = 0;
}

module _ {T E : Type 0} where
  -- The offer was taken: a fresh flight of this kind is under way.
  abbrev Begins : RetryPolicy → FlightKind → ℕ → Sender T × Result (Unit {0}) (Error E) → Type 0
  Begins policy kind seq (s, r) =
      (r ≡ ok tt) × (s.inflight ≡ some (fresh policy kind seq)) × (s.retry_policy ≡ policy)

  abbrev pub GivesUp : Sender T × Sent E → Type 0
  GivesUp (s, r) = (r ≡ some (err Error.retries_exhausted)) × (s.state ≡ failed)

module _ {T : Type 0} (E : Type 0) (s : Sender T) (v : IsValid s) (e : s.state ≡ idle) where
  offer_start-Begins : Begins {E = E} s.retry_policy start 0 (offer_start s)
  unfolding offer_start
  offer_start-Begins = ground arith

  offer-Begins : (b : ℕ) → Begins {E = E} s.retry_policy (dat b) s.seq.raw (offer s b)
  unfolding offer
  offer-Begins b = ground arith

  offer_finish-Begins : Begins {E = E} s.retry_policy finish s.seq.raw (offer_finish s)
  unfolding offer_finish
  offer_finish-Begins = ground arith

  offer_abort-Begins : Begins {E = E} s.retry_policy abort 0 (offer_abort s)
  unfolding offer_abort
  offer_abort-Begins = ground arith

module _ {T E : Type 0} (io : ByteTransport T E) (silent : IsSilent io) where
  offered-silent :
      (fuel : ℕ) (settles : TxPoll → Sent E) (policy : RetryPolicy) (kind : FlightKind) (seq : ℕ)
      (x : Sender T × Result (Unit {0}) (Error E))
      → settles pending ≡ none
      → IsValid x.0
      → policy.timeout_ticks < 2 ^ 16
      → (policy.max_retries + 1) * attempt policy < fuel
      → Begins policy kind seq x
      → GivesUp (offered io fuel settles x)
  unfolding offered
  offered-silent fuel settles policy kind seq (s, r) q v t h (o, i, k) =
      rw (o, offered)
        (await-silent io silent fuel settles s (fresh policy kind seq) q v (rw (ap timeout_of k) t)
          i (ground arith) (ground arith))

  -- Over a link that takes every byte and gives none, each of the four blocking calls on an idle
  -- sender ends with `RetriesExhausted` in the failed state, within four writes and the timeout's
  -- empty polls, at least one, for the first attempt and each retry.
  pub send-silent :
      (fuel : ℕ) (s : Sender T) (b : ℕ)
      → IsValid s
      → s.state ≡ idle
      → s.retry_policy.timeout_ticks < 2 ^ 16
      → (s.retry_policy.max_retries + 1) * attempt s.retry_policy < fuel
      → GivesUp (send_start io fuel s)
        × GivesUp (send_byte io fuel s b)
        × GivesUp (send_finish io fuel s)
        × GivesUp (send_abort io fuel s)
  unfolding send_start send_byte send_finish send_abort start_settles byte_settles finish_settles
      abort_settles
  send-silent fuel s b v e t h = (
    offered-silent fuel start_settles s.retry_policy start 0 (offer_start s) refl
        (offer_start-IsValid E s v) t h (offer_start-Begins E s v e),
    offered-silent fuel byte_settles s.retry_policy (dat b) s.seq.raw (offer s b) refl
        (offer-IsValid E s b v) t h (offer-Begins E s v e b),
    offered-silent fuel finish_settles s.retry_policy finish s.seq.raw (offer_finish s) refl
        (offer_finish-IsValid E s v) t h (offer_finish-Begins E s v e),
    offered-silent fuel abort_settles s.retry_policy abort 0 (offer_abort s) refl
        (offer_abort-IsValid E s v) t h (offer_abort-Begins E s v e),
  )
