-- ===== src/Tx/Patience.antt =====
-- How long a flight lasts on a port that takes every byte and gives none.
use psicose.Prelude.{
  ℕ, zero, suc, ◌+◌, ◌-◌, ◌*◌, ◌^◌, ◌≤◌, ◌<◌, true, false, Option, none, some, ◌≡◌, refl, arith,
  Result, ok, err, inl, inr, ◌⊎◌, ltb, if◌then◌else◌, map_err, subst, ap, Option-cases,
}
use Prim.Native.Nat.{max}
use psicose.Error.{Error}
use psicose.Timeout.{RetryPolicy}
use psicose.Transport.{ByteTransport}
use psicose.Protocol.Bytes.{get_byte}
use psicose.Protocol.Frame.{to_bytes}
use psicose.Protocol.OutBuf.{OutBuf}
use psicose.Tx.State.{Sender, frame_of, no_mark, TxPoll, pending, InFlight, failed}
use psicose.Tx.Poll.{on_attempt_failed, on_silence, on_read, poll_write, poll_load, poll_read, poll}
use psicose.Tx.Valid.{IsValid, sender_poll-IsValid}
use psicose.Tx.Outcome.{Outcome, sender_poll-Answers}
use psicose.Tx.Send.{Sent, await}

-- The link takes every byte and gives none.
pub record IsSilent {T E : Type 0} (io : ByteTransport T E) : Type 0 where
  pub writes : (t : T) (b : ℕ) → (io.write_byte t b).1 ≡ ok tt
  pub reads : (t : T) → (io.read_byte t).1 ≡ ok none

-- The empty polls of one attempt.
abbrev patience : RetryPolicy → ℕ
patience policy = max policy.timeout_ticks 1

-- The polls of one attempt: four writes, then the empty ones.
abbrev pub attempt : RetryPolicy → ℕ
attempt policy = 4 + patience policy

-- The polls that the current attempt has left.
abbrev attempt_left : RetryPolicy → InFlight → OutBuf → ℕ
attempt_left policy flight out =
    if flight.waiting
    then patience policy - flight.empty_ticks
    else (if ltb out.pos 4 then 4 - out.pos else 4) + patience policy

abbrev polls_left : RetryPolicy → Option InFlight → OutBuf → ℕ
polls_left policy none out = 0
polls_left policy (some flight) out =
    flight.retries_left * attempt policy + attempt_left policy flight out

-- A waiting flight has not timed out yet.
abbrev Patient : RetryPolicy → Option InFlight → Type 0
Patient policy none = ⊥
Patient policy (some flight) = flight.empty_ticks < patience policy

abbrev pub timeout_of : RetryPolicy → ℕ
timeout_of p = p.timeout_ticks

mul-pred : (r a : ℕ) → 1 ≤ r → r * a ≡ (r - 1) * a + a
mul-pred zero a h = absurd (omega arith)
mul-pred (suc r) a h = let e : suc r - 1 ≡ r = omega arith in rw e (omega arith)

module _ {T : Type 0} where
  abbrev left : Sender T → ℕ
  left s = polls_left s.retry_policy s.inflight s.out

  -- One poll used up, and the flight goes on.
  abbrev GoesOn : Sender T → Sender T → Type 0
  GoesOn s s' =
      (left s' < left s) × Patient s'.retry_policy s'.inflight × (s'.retry_policy ≡ s.retry_policy)

module _ {T E : Type 0} where
  abbrev Dwindles : Sender T → Sender T × Result TxPoll (Error E) → Type 0
  Dwindles s (s', r) = (r ≡ err Error.retries_exhausted) ⊎ ((r ≡ ok pending) × GoesOn s s')

module _ {T : Type 0} (E : Type 0) where
  on_silence-Dwindles :
      (s : Sender T) (g : InFlight)
      → s.retry_policy.timeout_ticks < 2 ^ 16
      → s.inflight ≡ some g
      → g.waiting ≡ true
      → g.empty_ticks < patience s.retry_policy
      → 4 ≤ s.out.pos
      → Dwindles {E = E} s (on_silence s)
  unfolding on_silence on_attempt_failed
  on_silence-Dwindles s g t e w p o =
      ground (arith, mul-pred g.retries_left (attempt s.retry_policy))

module _ {T E : Type 0} (io : ByteTransport T E) (silent : IsSilent io) where
  poll_write-Dwindles :
      (s : Sender T) (g : InFlight)
      → s.inflight ≡ some g
      → g.waiting ≡ false
      → g.empty_ticks < patience s.retry_policy
      → s.out.pos < 4
      → Dwindles s (poll_write io s)
  unfolding poll_write
  poll_write-Dwindles s g e w p o =
      ground (arith, silent.writes s.transport (get_byte s.out.buf s.out.pos))

  poll_load-Dwindles :
      (s : Sender T) (g : InFlight)
      → s.inflight ≡ some g
      → g.waiting ≡ false
      → g.empty_ticks < patience s.retry_policy
      → 4 ≤ s.out.pos
      → Dwindles s (poll_load io s)
  unfolding poll_load get_byte
  poll_load-Dwindles s g e w p o =
      ground (arith, silent.writes s.transport (to_bytes (frame_of g.kind g.seq)).b0)

  poll_read-Dwindles :
      (s : Sender T) (g : InFlight)
      → s.retry_policy.timeout_ticks < 2 ^ 16
      → s.inflight ≡ some g
      → g.waiting ≡ true
      → g.empty_ticks < patience s.retry_policy
      → 4 ≤ s.out.pos
      → Dwindles s (poll_read io s)
  unfolding poll_read
  poll_read-Dwindles s g t e w p o =
      rw (silent.reads s.transport, map_err)
        (unfold on_read in
          on_silence-Dwindles E (record s { transport = (io.read_byte s.transport).0 }) g t e w p o)

  poll-Dwindles :
      (s : Sender T) (g : InFlight)
      → IsValid s
      → s.retry_policy.timeout_ticks < 2 ^ 16
      → s.inflight ≡ some g
      → g.empty_ticks < patience s.retry_policy
      → Dwindles s (poll io s)
  unfolding poll
  poll-Dwindles s g v t e p = ground (
    arith,
    poll_write-Dwindles (record s { mark = no_mark }) g,
    poll_load-Dwindles (record s { mark = no_mark }) g,
    poll_read-Dwindles (record s { mark = no_mark }) g,
  )

  -- A flight that waits for a silent peer ends in the failed state.
  pub await-silent :
      (fuel : ℕ) (settles : TxPoll → Sent E) (s : Sender T) (g : InFlight)
      → settles pending ≡ none
      → IsValid s
      → s.retry_policy.timeout_ticks < 2 ^ 16
      → s.inflight ≡ some g
      → g.empty_ticks < patience s.retry_policy
      → left s < fuel
      → ((await io fuel settles s).1 ≡ some (err Error.retries_exhausted))
        × ((await io fuel settles s).0.state ≡ failed)
  unfolding await
  await-silent zero settles s g q v t e p h = absurd (omega arith)
  await-silent (suc fuel) settles s g q v t e p h = elim (poll-Dwindles s g v t e p) [
    | inl gone ↦
        rw (gone, await)
          (refl, (subst (Outcome s (poll io s).0) gone (sender_poll-Answers io s v)).0)
    | inr (goes, (less, patient, kept)) ↦ elim (Option-cases (poll io s).0.inflight) [
      | inl landed ↦ absurd (subst (Patient (poll io s).0.retry_policy) landed patient)
      | inr (g', e') ↦
          rw (goes, await)
            (rw (q, await)
              (await-silent fuel settles (poll io s).0 g' q (sender_poll-IsValid io s v)
                (rw (ap timeout_of kept) t) e'
                (subst (Patient (poll io s).0.retry_policy) e' patient) (omega arith)))
    ]
  ]
