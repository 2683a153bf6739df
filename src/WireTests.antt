-- ===== src/WireTests.antt =====
-- The half-duplex line, the faulty transport and the slices at concrete inputs.
use psicose.Error.{Error}
use psicose.Timeout.{budget}
use psicose.Rx.State.{PollOutcome, delivered, started, transfer_finished}
use psicose.Stream.{
  SliceSink, slice_full, slice_sink, written, write_slice, take_outcome, drain_recv,
}
use psicose.Stream.Slices.{write_slice-written, drain_recv-counts}
use psicose.Prelude.{
  ◌⊎◌, ◌<◌, Result, err, ℕ, List, ◌++◌, length, ◌≢◌, [], ◌∷◌, Bool, true, false, none, ◌≡◌, refl,
  arith, ok, ltb, if◌then◌else◌,
}
use psicose.Transport.{ByteTransport}
use psicose.Protocol.Frame.{data_frame, from_bytes, to_bytes, from_u8, as_u8}
use psicose.Protocol.Crc.{crc8_header, fold_byte}
use psicose.Half.{LineDirection, HalfDuplex, stage_byte, burst, raise, drop_line, flush, flush_byte}
use psicose.Half
use psicose.Half.Flush.{IsPort, IsStaged}
use psicose.Half.Burst.{IsHandedOver, write_byte-hands_over}
use psicose.Fault.{FaultyTransport, clean, drop_first, should_drop, damaged}
use psicose.Fault
use psicose.Fault.Frames.{IsReliable, passed, write_window, write_window-passed, damaged-refused}

-- A port that takes three bytes and refuses the rest.
abbrev short_port : ByteTransport (List ℕ) (Unit {0})
short_port = record {
  write_byte = λ t b. if ltb (length t) 3 then (t ++ b ∷ [], ok tt) else (t, err tt);
  read_byte = λ t. (t, ok none);
}

short_port-IsPort : IsPort short_port (λ t. t)
short_port-IsPort = record { taken = λ t b h. ground arith; refused = λ t b e h. ground arith }

-- The line's pin: high while it transmits.
abbrev pin : LineDirection Bool
pin = record { transmit = λ d. true; receive = λ d. false }

three_staged : HalfDuplex (List ℕ) Bool
three_staged = record {
  port = [];
  dir = false;
  stage = to_bytes (data_frame 0 0x41);
  filled = 3;
  flushed = 0;
}

three_staged-IsStaged : IsStaged three_staged
unfolding three_staged
three_staged-IsStaged = record { within = omega arith; unfinished = omega arith; whole = λ h. refl }

-- The port has three bytes, and the fourth waits.
three_taken : (Half.write_byte short_port pin three_staged 7).0.flushed ≡ 3
unfolding Half.write_byte stage_byte burst raise drop_line flush flush_byte three_staged
three_taken = refl

write_byte-hands_over_example :
    IsHandedOver short_port pin
      (λ t. t)
      short_port-IsPort
      three_staged
      (if ltb three_staged.filled 4 then 7 ∷ [] else [])
      (Half.write_byte short_port pin three_staged 7)
write_byte-hands_over_example =
    write_byte-hands_over short_port pin (λ t. t) short_port-IsPort three_staged 7
      three_staged-IsStaged

-- A port that takes every byte and keeps it.
abbrev log_port : ByteTransport (List ℕ) (Unit {0})
log_port = record { write_byte = λ t b. (t ++ b ∷ [], ok tt); read_byte = λ t. (t, ok none) }

log_port-IsReliable : IsReliable log_port (λ t. t)
log_port-IsReliable = record { accepts = λ t b. refl; appends = λ t b. refl }

lossy : FaultyTransport (List ℕ)
lossy = Fault.new [] (drop_first 1) clean

write_window-passed_example :
    ((write_window log_port lossy (to_bytes (data_frame 0 0x41))).1 ≡ ok tt)
    × ((write_window log_port lossy (to_bytes (data_frame 0 0x41))).0.writes ≡ 1)
    × ((write_window log_port lossy (to_bytes (data_frame 0 0x41))).0.write_fill ≡ 0)
    × ((write_window log_port lossy (to_bytes (data_frame 0 0x41))).0.inner ≡ [])
unfolding lossy Fault.new drop_first clean passed should_drop
write_window-passed_example =
    write_window-passed log_port (λ t. t) log_port-IsReliable lossy (to_bytes (data_frame 0 0x41))
      refl refl

data_frame-decodes : from_bytes (to_bytes (data_frame 0 0x41)) ≡ ok (data_frame 0 0x41)
unfolding from_bytes to_bytes from_u8 as_u8 data_frame crc8_header fold_byte
data_frame-decodes = refl

damaged-refused_example :
    from_bytes (damaged (to_bytes (data_frame 0 0x41))) ≢ ok (data_frame 0 0x41)
damaged-refused_example =
    damaged-refused (to_bytes (data_frame 0 0x41)) (data_frame 0 0x41) data_frame-decodes

-- Polls that were written down beforehand.
unfoldable scripted : List PollOutcome → List PollOutcome × Result PollOutcome (Error (Unit {0}))
scripted [] = ([], ok PollOutcome.pending)
scripted (o ∷ script) = (script, ok o)

abbrev two_bytes : SliceSink
two_bytes = record { buf = 0 ∷ 0 ∷ []; pos = 0 }

drain_recv-counts_example :
    (drain_recv scripted slice_sink 5
      (started ∷ delivered 7 ∷ transfer_finished ∷ [])
      two_bytes
      (budget 9)
      0).0.1.pos
    ≡ 1
unfolding drain_recv take_outcome write_slice scripted
drain_recv-counts_example =
    drain_recv-counts scripted 5 (started ∷ delivered 7 ∷ transfer_finished ∷ []) two_bytes
      (budget 9) 0 1 (record { within = omega arith; counted = refl; countable = omega arith }) refl

write_slice-written_example :
    ((0 < 2)
      × ((write_slice two_bytes 7).1 ≡ ok tt)
      × (written (write_slice two_bytes 7).0 ≡ written two_bytes ++ 7 ∷ [])
      × (length (write_slice two_bytes 7).0.buf ≡ 2))
    ⊎ ((two_bytes.pos ≡ 2) × (write_slice two_bytes 7 ≡ (two_bytes, err slice_full)))
write_slice-written_example = write_slice-written two_bytes 7 (omega arith)
