-- ===== src/Pump/Tests.antt =====
-- A pump at a concrete input.
use psicose.Prelude.{◌≡◌, refl, false, none, some, ok}
use psicose.Timeout.{default_policy}
use psicose.Transport.{ByteTransport}
use psicose.Tx.State.{with_policy}
use psicose.Rx.State.{Receiver, deliver, acknowledging}
use psicose.Rx.Poll as ReceiverPoll
use psicose.Tx.Poll as SenderPoll
use psicose.Pump.{no_stats}
use psicose.Pump.Poll.{Pump}
use psicose.Pump.Poll as PumpPoll
use psicose.Pump.Events.{Hands, counted, pump_poll-Hands}

-- A line that takes every byte and gives none.
abbrev quiet_line : ByteTransport (Unit {0}) (Unit {0})
quiet_line = record { write_byte = λ t b. (t, ok tt); read_byte = λ t. (t, ok none) }

-- A receiver that has one byte of an ACK left to write, and then delivers the byte 65.
abbrev about_to_deliver : Receiver (Unit {0})
about_to_deliver = record {
  transport = tt;
  expected_seq = record { raw = 0 };
  state = acknowledging;
  assembler = record {
    buf = record { b0 = 0; b1 = 0; b2 = 0; b3 = 0 };
    last = record { b0 = 0; b1 = 0; b2 = 0; b3 = 0 };
    filled = 0;
    resync = false;
  };
  out = record { buf = record { b0 = 2; b1 = 0; b2 = 0; b3 = 0x2a }; pos = 3 };
  pending = some (deliver 65);
  finish_seq = none;
  abort_latched = false;
}

a_pump : Pump (Unit {0}) (Unit {0})
a_pump = record {
  tx = with_policy tt default_policy;
  rx = about_to_deliver;
  stats = no_stats;
  last_acked = false;
  tx_done_seen = false;
  pending_completed = false;
}

a_pump-free : a_pump.pending_completed ≡ false
unfolding a_pump
a_pump-free = refl

pump_poll-Hands_example :
    Hands
      (ReceiverPoll.poll quiet_line a_pump.rx).1
      (SenderPoll.poll quiet_line a_pump.tx).1
      (PumpPoll.poll quiet_line quiet_line a_pump).1
    × ((PumpPoll.poll quiet_line quiet_line a_pump).0.stats.bytes_delivered
        ≡ counted a_pump.stats.bytes_delivered (ReceiverPoll.poll quiet_line a_pump.rx).1)
pump_poll-Hands_example = pump_poll-Hands quiet_line quiet_line a_pump a_pump-free
