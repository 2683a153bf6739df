-- ===== src/Fault.antt =====
-- fault.rs: a wrapper that drops and damages what goes over a transport.
pub mod Frames
use psicose.Prelude.{
  ℕ, zero, suc, ◌+◌, ◌-◌, ◌%◌, ◌^◌, min, bit_xor, Bool, true, false, not, ◌&&◌, ◌||◌, Option, none,
  some, ltb, leb, ◌==◌, if◌then◌else◌, Result, ok, err, ◌>>=◌,
}
use psicose.Protocol.Bytes.{FrameBytes, frame_len, zeroed, set_byte, get_byte}
use psicose.Transport.{ByteTransport}

pub record FaultPolicy : Type 0 where
  pub drop_first : ℕ
  pub drop_every : ℕ
  pub corrupt_first : ℕ
  pub corrupt_every : ℕ
  pub frame_granularity : Bool

-- `FaultPolicy::none()`.
unfoldable pub clean : FaultPolicy
clean = record {
  drop_first = 0;
  drop_every = 0;
  corrupt_first = 0;
  corrupt_every = 0;
  frame_granularity = true;
}

unfoldable pub drop_first : ℕ → FaultPolicy
unfolding clean
drop_first n = record clean { drop_first = n }

unfoldable pub drop_every : ℕ → FaultPolicy
unfolding clean
drop_every n = record clean { drop_every = n }

unfoldable pub corrupt_first : ℕ → FaultPolicy
unfolding clean
corrupt_first n = record clean { corrupt_first = n }

unfoldable pub corrupt_every : ℕ → FaultPolicy
unfolding clean
corrupt_every n = record clean { corrupt_every = n }

-- `every != 0` guards the remainder by zero, which panics in Rust.
unfoldable pub hits : ℕ → ℕ → Bool
hits count every = not (every == 0) && not (count == 0) && count % every == 0

unfoldable pub should_drop : FaultPolicy → ℕ → Bool
unfolding hits
should_drop p count = (not (p.drop_first == 0) && leb count p.drop_first) || hits count p.drop_every

unfoldable pub should_corrupt : FaultPolicy → ℕ → Bool
unfolding hits
should_corrupt p count =
    (not (p.corrupt_first == 0) && leb count p.corrupt_first) || hits count p.corrupt_every

pub record FaultyTransport (T : Type 0) : Type 0 where
  pub inner : T
  pub write_policy : FaultPolicy
  pub read_policy : FaultPolicy
  pub writes : ℕ
  pub reads : ℕ
  pub write_buf : FrameBytes
  pub write_fill : ℕ
  pub hold_reads : ℕ
  pub held : ℕ

unfoldable pub new : {T : Type 0} → T → FaultPolicy → FaultPolicy → FaultyTransport T
new inner write_policy read_policy = record {
  inner = inner;
  write_policy = write_policy;
  read_policy = read_policy;
  writes = 0;
  reads = 0;
  write_buf = zeroed;
  write_fill = 0;
  hold_reads = 0;
  held = 0;
}

unfoldable pub with_read_hold : {T : Type 0} → FaultyTransport T → ℕ → FaultyTransport T
with_read_hold f n = record f { hold_reads = n }

unfoldable pub on_write : {T : Type 0} → T → FaultPolicy → FaultyTransport T
unfolding new clean
on_write inner write_policy = new inner write_policy clean

-- `saturating_add(1)` on a `u32`.
abbrev pub next_count : ℕ → ℕ
next_count n = min (n + 1) (2 ^ 32 - 1)

-- `self.write_buf[3] ^= 0xFF`.
abbrev pub damaged : FrameBytes → FrameBytes
damaged frame = record frame { b3 = bit_xor frame.b3 0xff }

module _ {T E : Type 0} (io : ByteTransport T E) where
  unfoldable pub write_inner : FaultyTransport T → ℕ → FaultyTransport T × Result (Unit {0}) E
  write_inner f byte = let (t, w) = io.write_byte f.inner byte in (record f { inner = t }, w)

  -- `for b in frame { self.inner.write_byte(b)?; }`
  unfoldable pub write_frame :
      FaultyTransport T → FrameBytes → FaultyTransport T × Result (Unit {0}) E
  unfolding write_inner
  write_frame f frame = write_inner f frame.b0 >>= λ u f1. write_inner f1 frame.b1 >>= λ u f2.
      write_inner f2 frame.b2 >>= λ u f3. write_inner f3 frame.b3

  -- A write without granularity: the byte itself is the unit.
  unfoldable pub write_unit : FaultyTransport T → ℕ → FaultyTransport T × Result (Unit {0}) E
  unfolding write_inner should_drop should_corrupt
  write_unit f byte =
      let f' = record f { writes = next_count f.writes } in
      if should_drop f'.write_policy f'.writes
      then (f', ok tt)
      else write_inner f'
          (if should_corrupt f'.write_policy f'.writes then bit_xor byte 0x01 else byte)

  -- The frame is complete.
  unfoldable pub emit : FaultyTransport T → FaultyTransport T × Result (Unit {0}) E
  unfolding should_drop should_corrupt write_frame
  emit f =
      let f' = record f { write_fill = 0; writes = next_count f.writes } in
      if should_drop f'.write_policy f'.writes
      then (f', ok tt)
      else let frame =
          (if should_corrupt f'.write_policy f'.writes
            then damaged f'.write_buf
            else f'.write_buf) in
        write_frame (record f' { write_buf = frame }) frame

  unfoldable pub write_byte : FaultyTransport T → ℕ → FaultyTransport T × Result (Unit {0}) E
  write_byte f byte =
      if not f.write_policy.frame_granularity
      then write_unit f byte
      else let f' = record f {
        write_buf = set_byte f.write_buf f.write_fill byte;
        write_fill = f.write_fill + 1;
      } in
        if ltb f'.write_fill frame_len then (f', ok tt) else emit f'

  -- What becomes of a byte that the inner transport had.
  unfoldable pub pass_read : FaultyTransport T → ℕ → FaultyTransport T × Result (Option ℕ) E
  unfolding should_drop should_corrupt
  pass_read f byte =
      let f' = record f { reads = next_count f.reads } in
      if should_drop f'.read_policy f'.reads
      then (f', ok none)
      else if should_corrupt f'.read_policy f'.reads
      then (f', ok (some (bit_xor byte 0x01)))
      else (f', ok (some byte))

  unfoldable pub read_byte : FaultyTransport T → FaultyTransport T × Result (Option ℕ) E
  unfolding pass_read
  read_byte f =
      if ltb f.held f.hold_reads
      then (record f { held = next_count f.held }, ok none)
      else let (t, r) = io.read_byte f.inner in
        let f' = record f { inner = t } in
        elim r [
          | err e ↦ (f', err e)
          | ok o ↦ elim o [ none ↦ (f', ok none) | some byte ↦ pass_read f' byte ]
        ]
