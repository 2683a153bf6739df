-- ===== src/Half.antt =====
-- transport/half.rs: a frame is staged, then written as one burst on a line of one direction.
pub mod Flush
pub mod Burst
use psicose.Prelude.{ℕ, zero, suc, ◌+◌, not, Option, ltb, if◌then◌else◌, Result, ok, err, ◌>>=◌}
use psicose.Protocol.Bytes.{FrameBytes, frame_len, zeroed, set_byte, get_byte}
use psicose.Transport.{ByteTransport}

-- `trait LineDirection`, for a driver of type `D`.
pub record LineDirection (D : Type 0) : Type 0 where
  pub transmit : D → D
  pub receive : D → D

pub record HalfDuplex (T D : Type 0) : Type 0 where
  pub port : T
  pub dir : D
  pub stage : FrameBytes
  pub filled : ℕ
  pub flushed : ℕ

module _ {T D : Type 0} (line : LineDirection D) where
  unfoldable pub new : T → D → HalfDuplex T D
  new port dir = record {
    port = port;
    dir = line.receive dir;
    stage = zeroed;
    filled = 0;
    flushed = 0;
  }

  -- The first statement of `write_byte`.
  unfoldable pub stage_byte : HalfDuplex T D → ℕ → HalfDuplex T D
  stage_byte h byte =
      if ltb h.filled frame_len
      then record h { stage = set_byte h.stage h.filled byte; filled = h.filled + 1 }
      else h

  unfoldable pub raise : HalfDuplex T D → HalfDuplex T D
  raise h = record h { dir = line.transmit h.dir }

  unfoldable pub drop_line : HalfDuplex T D → HalfDuplex T D
  drop_line h = record h { dir = line.receive h.dir }

module _ {T D E : Type 0} (io : ByteTransport T E) (line : LineDirection D) where
  -- One round of the loop. On an error the line is dropped.
  unfoldable pub flush_byte : HalfDuplex T D → HalfDuplex T D × Result (Unit {0}) E
  unfolding drop_line
  flush_byte h =
      let (t, w) = io.write_byte h.port (get_byte h.stage h.flushed) in
      let h' = record h { port = t } in
      elim w [
        | ok u ↦ (record h' { flushed = h'.flushed + 1 }, ok tt)
        | err e ↦ (drop_line line h', err e)
      ]

  -- The loop, on fuel: a round moves `flushed` up by one, so `frame_len` rounds are enough.
  unfoldable pub flush : ℕ → HalfDuplex T D → HalfDuplex T D × Result (Unit {0}) E
  flush zero h = (h, ok tt)
  flush (suc rounds) h =
      if ltb h.flushed frame_len then (flush_byte h >>= λ u h'. flush rounds h') else (h, ok tt)

  unfoldable pub burst : HalfDuplex T D → HalfDuplex T D × Result (Unit {0}) E
  unfolding raise drop_line flush
  burst h = flush frame_len (raise line h) >>= λ u h'.
      (record (drop_line line h') { filled = 0; flushed = 0 }, ok tt)

  unfoldable pub write_byte : HalfDuplex T D → ℕ → HalfDuplex T D × Result (Unit {0}) E
  write_byte h byte =
      let h' = stage_byte line h byte in if ltb h'.filled frame_len then (h', ok tt) else burst h'

  unfoldable pub read_byte : HalfDuplex T D → HalfDuplex T D × Result (Option ℕ) E
  read_byte h = let (t, r) = io.read_byte h.port in (record h { port = t }, r)
