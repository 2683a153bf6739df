-- ===== src/Stream.antt =====
-- stream.rs: sources and sinks over slices, and the stop-and-wait transfer loops.
pub mod Slices
use psicose.Prelude.{
  ℕ, zero, suc, ◌+◌, ◌-◌, ◌^◌, min, List, [], ◌∷◌, Option, none, some, leb, if◌then◌else◌, length,
  set, take, Result, ok, err,
}
use psicose.Error.{Error}
use psicose.Timeout.{IdleBudget, tick}
use psicose.Timeout
use psicose.Transport.{ByteTransport, ByteSource, ByteSink}
use psicose.Tx.State.{Sender}
use psicose.Tx.Send.{send_byte, send_finish}
use psicose.Rx.State.{
  PollOutcome, delivered, duplicate_ignored, started, transfer_finished, rejected, crc_rejected,
}

pub data StreamError (E A : Type 0) : Type 0 where
  protocol : Error E → StreamError E A
  application : A → StreamError E A

pub record SliceSource : Type 0 where
  pub rest : List ℕ

-- `SliceSource::read_byte`, which cannot fail.
unfoldable pub read_slice : {A : Type 0} → SliceSource → SliceSource × Result (Option ℕ) A
read_slice s = elim s.rest [
  | [] ↦ (s, ok none)
  | byte ∷ rest ↦ (record { rest = rest }, ok (some byte))
]

unfoldable pub remaining : SliceSource → ℕ
remaining s = length s.rest

pub data SliceFull : Type 0 where
  slice_full : SliceFull

pub record SliceSink : Type 0 where
  pub buf : List ℕ
  pub pos : ℕ

unfoldable pub new_sink : List ℕ → SliceSink
new_sink buf = record { buf = buf; pos = 0 }

unfoldable pub filled : SliceSink → ℕ
filled k = k.pos

unfoldable pub written : SliceSink → List ℕ
written k = take k.pos k.buf

-- `SliceSink::write_byte`.
unfoldable pub write_slice : SliceSink → ℕ → SliceSink × Result (Unit {0}) SliceFull
write_slice k byte =
    if leb (length k.buf) k.pos
    then (k, err slice_full)
    else (record { buf = set k.buf k.pos byte; pos = k.pos + 1 }, ok tt)

abbrev pub slice_source : {A : Type 0} → ByteSource SliceSource A
slice_source = record { source_byte = read_slice }

abbrev pub slice_sink : ByteSink SliceSink SliceFull
slice_sink = record { sink_byte = write_slice }

-- `saturating_add(1)` on a `u64`.
abbrev pub next_total : ℕ → ℕ
next_total n = min (n + 1) (2 ^ 64 - 1)

-- A transfer ends with a count or an error; `none` is a loop that has used up its fuel.
abbrev pub Transfer : Type 0 → Type 0 → Type 0
Transfer E A = Option (Result ℕ (StreamError E A))

module _ {T E S A : Type 0} (io : ByteTransport T E) (source : ByteSource S A) where
  -- The loop of `send_all` after `n` bytes, on fuel; `polls` is the fuel of each blocking call.
  unfoldable pub send_all : ℕ → ℕ → Sender T → S → ℕ → (Sender T × S) × Transfer E A
  send_all zero polls tx src n = ((tx, src), none)
  send_all (suc rounds) polls tx src n =
      let (src', r) = source.source_byte src in
      elim r [
        | err a ↦ ((tx, src'), some (err (StreamError.application a)))
        | ok none ↦
            let (tx', sent) = send_finish io polls tx in
            elim sent [
              | none ↦ ((tx', src'), none)
              | some (err e) ↦ ((tx', src'), some (err (StreamError.protocol e)))
              | some (ok u) ↦ ((tx', src'), some (ok n))
            ]
        | ok (some byte) ↦
            let (tx', sent) = send_byte io polls tx byte in
            elim sent [
              | none ↦ ((tx', src'), none)
              | some (err e) ↦ ((tx', src'), some (err (StreamError.protocol e)))
              | some (ok u) ↦ send_all rounds polls tx' src' (next_total n)
            ]
      ]

module _ {R E K A : Type 0} (poll : R → R × Result PollOutcome (Error E))
    (sink : ByteSink K A) where
  -- What `drain_recv` does with an outcome: end, or go round again with a new budget and count.
  unfoldable pub take_outcome : PollOutcome → K → IdleBudget → ℕ → K × IdleBudget × ℕ × Transfer E A
  take_outcome (delivered byte) k b n =
      let (k', w) = sink.sink_byte k byte in
      elim w [
        | err a ↦ (k', b, n, some (err (StreamError.application a)))
        | ok u ↦ (k', Timeout.reset b, next_total n, none)
      ]
  take_outcome transfer_finished k b n = (k, b, n, some (ok n))
  take_outcome PollOutcome.aborted k b n =
      (k, b, n, some (err (StreamError.protocol Error.aborted)))
  take_outcome started k b n = (k, Timeout.reset b, n, none)
  take_outcome duplicate_ignored k b n = (k, Timeout.reset b, n, none)
  take_outcome rejected k b n = (k, Timeout.reset b, n, none)
  take_outcome crc_rejected k b n = (k, Timeout.reset b, n, none)
  take_outcome PollOutcome.pending k b n =
      let (b', t) = tick {E = E} b in
      elim t [ err e ↦ (k, b', n, some (err (StreamError.protocol e))) | ok u ↦ (k, b', n, none) ]

  -- The loop of `drain_recv`, on fuel.
  unfoldable pub drain_recv : ℕ → R → K → IdleBudget → ℕ → (R × K) × Transfer E A
  drain_recv zero r k b n = ((r, k), none)
  drain_recv (suc rounds) r k b n =
      let (r', p) = poll r in
      elim p [
        | err e ↦ ((r', k), some (err (StreamError.protocol e)))
        | ok o ↦
            let (k', b', n', done) = take_outcome o k b n in
            elim done [ some x ↦ ((r', k'), some x) | none ↦ drain_recv rounds r' k' b' n' ]
      ]
