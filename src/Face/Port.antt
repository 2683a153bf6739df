-- ===== src/Face/Port.antt =====
-- transport/face.rs: the demultiplexer, and the two ends that share the port. The `RefCell` hands
-- the state to one call at a time, so that it is passed along here.
use psicose.Prelude.{
  ℕ, zero, suc, Bool, true, false, Option, none, some, if◌then◌else◌, Result, ok, err, map_err,
}
use psicose.Protocol.Bytes.{FrameBytes}
use psicose.Protocol.Frame.{Frame, FrameType, FrameError, to_bytes}
use psicose.Protocol.Assembler.{FrameAssembler, push, last_bytes, resyncing}
use psicose.Transport.{ByteTransport}
use psicose.Face.Ring.{Ring, pop, push_frame}
use psicose.Face.Ring

pub record Held : Type 0 where
  pub bytes : FrameBytes
  pub control : Bool

pub record FaceInner (T : Type 0) : Type 0 where
  pub port : T
  pub assembler : FrameAssembler
  pub control : Ring
  pub payload : Ring
  pub pending : Option Held

pub data FaceError (E : Type 0) : Type 0 where
  port : E → FaceError E
  full : FaceError E

-- `matches!(frame.frame_type(), FrameType::Ack | FrameType::Nack)`.
unfoldable pub answers : FrameType → Bool
answers FrameType.ack = true
answers FrameType.nack = true
answers FrameType.dat = false
answers FrameType.start = false
answers FrameType.finish = false
answers FrameType.abort = false

-- What becomes of a full window: a frame, or the bytes of a window that does not decode.
unfoldable pub held_of : FrameAssembler → Result Frame FrameError → Held
unfolding answers
held_of a (ok f) = record { bytes = to_bytes f; control = answers f.frame_type }
held_of a (err e) = record { bytes = last_bytes a; control = false }

module _ {T : Type 0} where
  unfoldable pub new : T → FaceInner T
  unfolding resyncing Ring.new
  new t = record {
    port = t;
    assembler = resyncing;
    control = Ring.new;
    payload = Ring.new;
    pending = none;
  }

  unfoldable pub store : FaceInner T → Held → FaceInner T × Bool
  store g held =
      if held.control
      then (let (r, fits) = push_frame g.control held.bytes in (record g { control = r }, fits))
      else let (r, fits) = push_frame g.payload held.bytes in (record g { payload = r }, fits)

module _ {T E : Type 0} (io : ByteTransport T E) where
  abbrev pub Ended : Type 0
  Ended = FaceInner T × Option (Result (Unit {0}) (FaceError E))

  -- A round of the loop of `ingest`; `more` is what follows it. A frame is stored or held back.
  unfoldable pub keep : (FaceInner T → Ended) → FaceInner T → Held → Ended
  unfolding store
  keep more g held =
      let (g', fits) = store g held in
      elim fits [ true ↦ more g' | false ↦ (record g' { pending = some held }, some (ok tt)) ]

  unfoldable pub on_window :
      (FaceInner T → Ended) → FaceInner T → Option (Result Frame FrameError) → Ended
  unfolding keep
  on_window more g none = more g
  on_window more g (some result) = keep more g (held_of g.assembler result)

  unfoldable pub on_answer : (FaceInner T → Ended) → FaceInner T → Result (Option ℕ) E → Ended
  unfolding on_window
  on_answer more g (err e) = (g, some (err (FaceError.port e)))
  on_answer more g (ok none) = (g, some (ok tt))
  on_answer more g (ok (some byte)) =
      let (a, window) = push g.assembler byte in on_window more (record g { assembler = a }) window

  -- The loop, on fuel, a unit for a read; `none` is fuel that has run out.
  unfoldable pub read_on : ℕ → FaceInner T → Ended
  unfolding on_answer
  read_on zero g = (g, none)
  read_on (suc fuel) g =
      let (t, r) = io.read_byte g.port in on_answer (read_on fuel) (record g { port = t }) r

  -- A frame that is held back goes first.
  unfoldable pub on_pending : ℕ → FaceInner T → Option Held → Ended
  unfolding store
  on_pending fuel g none = read_on fuel g
  on_pending fuel g (some held) =
      let (g', fits) = store g held in
      elim fits [ true ↦ read_on fuel (record g' { pending = none }) | false ↦ (g', some (ok tt)) ]

  unfoldable pub ingest : ℕ → FaceInner T → Ended
  unfolding on_pending
  ingest fuel g = on_pending fuel g g.pending

  -- `FaceTx::write_byte` and `FaceRx::write_byte`.
  unfoldable pub write_byte : FaceInner T → ℕ → FaceInner T × Result (Unit {0}) (FaceError E)
  write_byte g byte =
      let (t, w) = io.write_byte g.port byte in (record g { port = t }, map_err FaceError.port w)

  abbrev pub Got : Type 0
  Got = Option (Result (Option ℕ) (FaceError E))

  -- `FaceTx::read_byte`.
  unfoldable pub read_control : ℕ → FaceInner T → FaceInner T × Got
  read_control fuel g =
      let (g', done) = ingest fuel g in
      elim done [
        | none ↦ (g', none)
        | some (err e) ↦ (g', some (err e))
        | some (ok u) ↦
            let (r, byte) = pop g'.control in (record g' { control = r }, some (ok byte))
      ]

  -- `FaceRx::read_byte`.
  unfoldable pub read_payload : ℕ → FaceInner T → FaceInner T × Got
  read_payload fuel g =
      let (g', done) = ingest fuel g in
      elim done [
        | none ↦ (g', none)
        | some (err e) ↦ (g', some (err e))
        | some (ok u) ↦
            let (r, byte) = pop g'.payload in (record g' { payload = r }, some (ok byte))
      ]
