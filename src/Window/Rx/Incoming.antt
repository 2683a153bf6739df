-- ===== src/Window/Rx/Incoming.antt =====
-- window/rx.rs: what each frame that comes in does to the place in the stream.
use psicose.Prelude.{
  ℕ, ◌≤◌, ◌≡◌, refl, ◌⊎◌, inl, inr, arith, not, Option, none, some, leb, if◌then◌else◌, Bool-cases,
  Result-cases, Result, ok, err, subst,
}
use psicose.Error.{Error}
use psicose.Transport.{ByteTransport}
use psicose.Protocol.Frame.{Frame, FrameType, FrameError, nack_frame}
use psicose.Protocol.Assembler.{FrameAssembler, push}
use psicose.Rx.State.{RxState, receiving, validating, PollOutcome}
use psicose.Window.Rx.{WindowedReceiver, new, PendingAction, settle_idle, is_closed}
use psicose.Window.Rx.Poll.{
  reject_action, read, pump_reply, on_frame, on_noise, on_push, on_read, listen,
}
use psicose.Window.Rx.Order.{Stream, fresh}
use psicose.Window.Rx.Delivery.{IsValid, Paired, Ready, Steps, pump_reply-Steps}
use psicose.Window.Rx.Handlers.{
  IsQuiet, IsNear, Keeps, Renews, quiet-IsValid, reply-Handled, handle_start-Handled,
  handle_abort-Handled, handle_finish-Handled, handle_data-Handled,
}

-- The window that the next byte of the transport completes.
unfoldable pub incoming :
    {T E : Type 0} → ByteTransport T E → WindowedReceiver T → Option (Result Frame FrameError)
incoming io r = elim (io.read_byte r.transport).1 [
  | err e ↦ none
  | ok none ↦ none
  | ok (some byte) ↦ (push r.assembler byte).1
]

-- The stream goes on or, where `O` holds, a new one begins or, where `F` holds, it is closed.
abbrev pub Continues :
    {T E : Type 0}
    → Type 0
    → Type 0
    → Stream
    → ℕ
    → ℕ
    → WindowedReceiver T × Result PollOutcome E
    → Type 0
Continues O F sent size given x =
    Steps sent size given x
    ⊎ ((O × ((sent' : ℕ → ℕ) → Steps (fresh sent') size 0 x))
        ⊎ (F × Steps (fresh sent.byte) size given x))

Paired-none : (a : Option PendingAction) (pos : ℕ) → Paired a pos → 4 ≤ pos → a ≡ none
Paired-none none pos p h = refl
Paired-none (some a) pos p h = absurd (omega arith)

module _ {T E : Type 0} (size : ℕ) (io : ByteTransport T E) (sent : Stream) (given : ℕ)
    (O F : Type 0) where
  -- What the handler leaves is answered for.
  Keeps-GoesOn :
      (r : WindowedReceiver T)
      → Keeps size sent given r
      → Continues O F sent size given (pump_reply size io r)
  Keeps-GoesOn r (e, v) = inl (pump_reply-Steps size io sent given r v e)

  Renews-GoesOn :
      (r : WindowedReceiver T)
      → O
      → Renews size r
      → Continues O F sent size given (pump_reply size io r)
  Renews-GoesOn r o (e, new) =
      inr (inl (o, λ sent'. pump_reply-Steps size io (fresh sent') 0 r (new sent') e))

  IsQuiet-with :
      (r : WindowedReceiver T) (t : T) (a : FrameAssembler) (s : RxState)
      → IsQuiet sent size given r
      → IsQuiet sent size given (record r { transport = t; assembler = a; state = s })
  IsQuiet-with r t a s v = record {
    holds = v.holds;
    limited = v.limited;
    over = v.over;
    nothing = v.nothing;
    clear = v.clear;
    empty = v.empty;
  }

  quiet-GoesOn :
      (r : WindowedReceiver T)
      → IsQuiet sent size given r
      → Continues {E = Error E} O F sent size given (r, ok PollOutcome.pending)
  quiet-GoesOn r v = inl (given, 0, quiet-IsValid size sent given r v, refl)

  on_frame-GoesOn :
      (r : WindowedReceiver T) (t : FrameType) (f : Frame)
      → IsQuiet sent size given r
      → (t ≡ FrameType.dat → IsNear sent.byte given f)
      → ((t ≡ FrameType.start) ⊎ (t ≡ FrameType.abort) → O)
      → (t ≡ FrameType.finish → F)
      → Continues O F sent size given (on_frame size io r t f)
  unfolding on_frame settle_idle
  on_frame-GoesOn r FrameType.dat f v near opens closes =
      Keeps-GoesOn _ (handle_data-Handled size sent given r v f (near refl))
  on_frame-GoesOn r FrameType.start f v near opens closes =
      Renews-GoesOn _ (opens (inl refl)) (handle_start-Handled size sent given r v)
  on_frame-GoesOn r FrameType.finish f v near opens closes =
      elim (handle_finish-Handled size sent given r v f.seq) [
        | inl keeps ↦ Keeps-GoesOn _ keeps
        | inr (e, v') ↦
            inr (inr (closes refl, pump_reply-Steps size io (fresh sent.byte) given _ v' e))
      ]
  on_frame-GoesOn r FrameType.abort f v near opens closes =
      elim (handle_abort-Handled size sent given r v) [
        | inl keeps ↦ Keeps-GoesOn _ keeps
        | inr renews ↦ Renews-GoesOn _ (opens (inr refl)) renews
      ]
  on_frame-GoesOn r FrameType.ack f v near opens closes =
      quiet-GoesOn _ (IsQuiet-with r r.transport r.assembler (settle_idle r).state v)
  on_frame-GoesOn r FrameType.nack f v near opens closes =
      quiet-GoesOn _ (IsQuiet-with r r.transport r.assembler (settle_idle r).state v)

  Ready-reject :
      (e : FrameError) (r : WindowedReceiver T)
      → IsQuiet sent size given r
      → Ready (some (reject_action e)) r.buf
  unfolding reject_action
  Ready-reject (FrameError.invalid_type b) r v = v.clear
  Ready-reject (FrameError.crc_mismatch x g) r v = v.clear
  Ready-reject FrameError.invalid_semantics r v = v.clear

  on_noise-GoesOn :
      (r : WindowedReceiver T) (e : FrameError)
      → IsQuiet sent size given r
      → Continues O F sent size given (on_noise size io r e)
  unfolding on_noise settle_idle
  on_noise-GoesOn r e v = elim (Bool-cases (is_closed r)) [
    | inl shut ↦
        rw (shut, on_noise)
          (quiet-GoesOn _ (IsQuiet-with r r.transport r.assembler (settle_idle r).state v))
    | inr still ↦
        rw (still, on_noise)
          (Keeps-GoesOn _ (
            reply-Handled size sent given r v (nack_frame r.expected_seq.raw) (reject_action e)
              (Ready-reject e r v)))
  ]

  on_push-GoesOn :
      (r : WindowedReceiver T) (w : Option (Result Frame FrameError))
      → IsQuiet sent size given r
      → ((f : Frame) → w ≡ some (ok f) → f.frame_type ≡ FrameType.dat → IsNear sent.byte given f)
      → ((f : Frame)
          → w ≡ some (ok f)
          → (f.frame_type ≡ FrameType.start) ⊎ (f.frame_type ≡ FrameType.abort)
          → O)
      → ((f : Frame) → w ≡ some (ok f) → f.frame_type ≡ FrameType.finish → F)
      → Continues O F sent size given (on_push size io r w)
  unfolding on_push
  on_push-GoesOn r none v near opens closes = quiet-GoesOn r v
  on_push-GoesOn r (some (ok f)) v near opens closes =
      on_frame-GoesOn (record r { state = validating }) f.frame_type f
        (IsQuiet-with r r.transport r.assembler validating v) (near f refl) (opens f refl)
        (closes f refl)
  on_push-GoesOn r (some (err e)) v near opens closes =
      on_noise-GoesOn (record r { state = validating }) e
        (IsQuiet-with r r.transport r.assembler validating v)

  abbrev pub Genuine : WindowedReceiver T → Type 0
  Genuine r =
      (f : Frame)
      → incoming io r ≡ some (ok f)
      → f.frame_type ≡ FrameType.dat
      → IsNear sent.byte given f

  abbrev pub Opening : WindowedReceiver T → Type 0
  Opening r =
      (f : Frame)
      → incoming io r ≡ some (ok f)
      → (f.frame_type ≡ FrameType.start) ⊎ (f.frame_type ≡ FrameType.abort)
      → O

  abbrev pub Closing : WindowedReceiver T → Type 0
  Closing r = (f : Frame) → incoming io r ≡ some (ok f) → f.frame_type ≡ FrameType.finish → F

  listen-GoesOn :
      (r : WindowedReceiver T)
      → IsQuiet sent size given r
      → Genuine r
      → Opening r
      → Closing r
      → Continues O F sent size given (listen size io r)
  unfolding listen read on_read settle_idle incoming
  listen-GoesOn r v near opens closes =
      let t = (io.read_byte r.transport).0 in
      elim (Result-cases (io.read_byte r.transport).1) [
        | inr (x, e) ↦ rw (e, read) (inl (given, 0, quiet-IsValid size sent given r v, refl))
        | inl (none, e) ↦
            rw (e, read) (quiet-GoesOn _ (IsQuiet-with r t r.assembler (settle_idle r).state v))
        | inl (some b, e) ↦
            let a = (push r.assembler b).0 in
            let r' : WindowedReceiver T = record r {
              transport = t;
              assembler = a;
              state = receiving;
            } in
            rw (e, read)
              (on_push-GoesOn r' (push r.assembler b).1 (IsQuiet-with r t a receiving v)
                (λ f w. near f (rw (e, incoming) w)) (λ f w. opens f (rw (e, incoming) w))
                (λ f w. closes f (rw (e, incoming) w)))
      ]

  pub unemitted-GoesOn :
      (r : WindowedReceiver T)
      → IsValid sent size given 0 r
      → r.emit_len ≡ 0
      → Genuine r
      → (4 ≤ r.out.pos → Opening r)
      → (4 ≤ r.out.pos → Closing r)
      → Continues O F sent size given
          (if not (leb 4 r.out.pos) then pump_reply size io r else listen size io r)
  unemitted-GoesOn r (h, l, p, y) e near opens closes = elim (Bool-cases (leb 4 r.out.pos)) [
    | inr half ↦ rw half (inl (pump_reply-Steps size io sent given r (h, l, p, y) e))
    | inl over ↦
        let done : r.pending ≡ none = Paired-none r.pending r.out.pos p (ground arith) in
        let v : IsQuiet sent size given r = record {
          holds = h;
          limited = l;
          over = ground arith;
          nothing = done;
          clear = subst (λ a. Ready a r.buf) done y;
          empty = e;
        } in
        rw over (listen-GoesOn r v near (opens (ground arith)) (closes (ground arith)))
  ]
