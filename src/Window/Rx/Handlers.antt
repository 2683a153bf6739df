-- ===== src/Window/Rx/Handlers.antt =====
-- window/rx.rs: what the handlers of the frames do to the reorder buffer.
use psicose.Prelude.{
  ℕ, zero, suc, ◌+◌, ◌%◌, ◌≤◌, ◌<◌, ◌≡◌, ◌≢◌, refl, ap, sym, ◌∙◌, ◌⊎◌, inl, inr, arith, List,
  Option, none, some, ◌==◌, if◌then◌else◌, length, get_or, set, length-set, get_or-set_ne,
  Bool-cases, Option-cases, subst,
}
use psicose.Protocol.Frame.{Frame, ack_frame, nack_frame}
use psicose.Protocol.Sequence.{Sequence}
use psicose.Protocol.Sequence
use psicose.Protocol.OutBuf.{load}
use psicose.Rx.State.{is_some}
use psicose.Window.Rx.{
  WindowedReceiver, PendingAction, drain, duplicate, quiet, finished, rejected, repeat, offset,
  is_duplicate, clear_window, begin_reply, accept, handle_start, handle_abort, handle_finish,
  handle_data,
}
use psicose.Window.Rx.Order.{
  Stream, fresh, held-le-set, Buffered, Buffered-set, Buffered-repeat, Holds, Reaches,
  empty-IsQueue,
}
use psicose.Window.Rx.Delivery.{IsLimited, IsValid, Paired, Ready}

-- Nothing is under way: a frame may be handled.
pub record IsQuiet {T : Type 0} (sent : Stream) (size given : ℕ) (r : WindowedReceiver T)
    : Type 0 where
  pub holds : Holds sent size given 0 r
  pub limited : IsLimited size r.limit
  pub over : 4 ≤ r.out.pos
  pub nothing : r.pending ≡ none
  pub clear : get_or r.buf 0 none ≡ none
  pub empty : r.emit_len ≡ 0

-- A data frame of the stream: the byte of place `k`, under its number, not far from the next byte
-- that is due. The sender's window is at most 8 places long.
pub record IsNear (sent : ℕ → ℕ) (given : ℕ) (f : Frame) : Type 0 where
  pub place : ℕ
  pub number : f.seq ≡ place % 256
  pub byte : f.payload ≡ sent place
  pub not_ahead : place < given + 100
  pub not_behind : given < place + 100

pub length-repeat : {A : Type 0} (a : A) (n : ℕ) → length (repeat a n) ≡ n
length-repeat a zero = refl
length-repeat a (suc n) = ap suc (length-repeat a n)

pub front-repeat : (n : ℕ) → get_or {A = Option ℕ} (repeat none n) 0 none ≡ none
front-repeat zero = refl
front-repeat (suc n) = refl

-- The front is free after a byte has come in behind it.
Ready-accept :
    (off : ℕ) (buf : List (Option ℕ))
    → (off ≢ 0 → get_or buf 0 none ≡ none)
    → Ready (some (if off == 0 then drain else quiet)) buf
Ready-accept off buf h = elim (Bool-cases (off == 0)) [
  | inl e ↦ rw e tt
  | inr e ↦ rw e (h (ground arith))
]

module _ {T : Type 0} (size : ℕ) where
  -- A handled frame leaves the stream in its place.
  abbrev pub Keeps : Stream → ℕ → WindowedReceiver T → Type 0
  Keeps sent given r = (r.emit_len ≡ 0) × IsValid sent size given 0 r

  -- It starts a new one.
  abbrev pub Renews : WindowedReceiver T → Type 0
  Renews r = (r.emit_len ≡ 0) × ((sent' : ℕ → ℕ) → IsValid (fresh sent') size 0 0 r)

  module _ (sent : Stream) (given : ℕ) (r : WindowedReceiver T)
      (v : IsQuiet sent size given r) where
    pub quiet-IsValid : IsValid sent size given 0 r
    quiet-IsValid = (
      v.holds,
      v.limited,
      subst (λ a. Paired a r.out.pos) (sym v.nothing) v.over,
      subst (λ a. Ready a r.buf) (sym v.nothing) v.clear,
    )

    pub reply-Handled :
        (f : Frame) (action : PendingAction)
        → Ready (some action) r.buf
        → Keeps sent given (begin_reply r f action)
    unfolding begin_reply load
    reply-Handled f action y = (v.empty, (v.holds, v.limited, omega arith, y))

    -- An empty window.
    cleared :
        (seq : Sequence) (k : ℕ)
        → (sent' : ℕ → ℕ) → seq.raw ≡ (k + 0) % 256
        → Reaches (fresh sent') size k 0 seq (repeat none size) r.emit 0 0
    cleared seq k sent' e = record {
      expected = e;
      slots = length-repeat none size;
      buffered = Buffered-repeat sent' (k + 0) size;
      kept = omega arith;
      queue = empty-IsQueue sent' size k r.emit v.holds.queue.room;
    }

    pub handle_start-Handled : Renews (handle_start size r)
    unfolding handle_start clear_window begin_reply load Sequence.new
    handle_start-Handled = (
      refl,
      λ sent'.
          (cleared Sequence.new 0 sent' (omega arith), v.limited, omega arith, front-repeat size),
    )

    pub handle_abort-Handled : Keeps sent given (handle_abort size r) ⊎ Renews (handle_abort size r)
    unfolding handle_abort clear_window begin_reply load Sequence.new
    handle_abort-Handled = elim (Bool-cases (is_some r.finish_seq)) [
      | inl done ↦ rw (done, handle_abort) (inl (v.empty, quiet-IsValid))
      | inr still ↦
          rw (still, handle_abort)
            (inr (
              refl,
              λ sent'. (
                cleared Sequence.new 0 sent' (omega arith),
                v.limited,
                omega arith,
                front-repeat size,
              ),
            ))
    ]

    pub handle_finish-Handled :
        (seq : ℕ)
        → Keeps sent given (handle_finish size r seq)
          ⊎ Keeps (fresh sent.byte) given (handle_finish size r seq)
    unfolding handle_finish clear_window begin_reply load
    handle_finish-Handled seq = elim (Bool-cases r.abort_latched) [
      | inl dead ↦ rw (dead, handle_finish) (inl (v.empty, quiet-IsValid))
      | inr live ↦ elim (Option-cases r.finish_seq) [
        | inr (closed, e) ↦ elim (Bool-cases (seq == closed)) [
          | inl same ↦
              rw (live, handle_finish)
                (rw (e, handle_finish)
                  (rw (same, handle_finish) (inl (reply-Handled (ack_frame seq) finished v.clear))))
          | inr other ↦
              rw (live, handle_finish)
                (rw (e, handle_finish) (rw (other, handle_finish) (inl (v.empty, quiet-IsValid))))
        ]
        | inl e ↦ elim (Bool-cases (seq == r.expected_seq.raw)) [
          | inl due ↦
              rw (live, handle_finish)
                (rw (e, handle_finish)
                  (rw (due, handle_finish)
                    (inr (
                      refl,
                      (
                        cleared r.expected_seq given sent.byte v.holds.expected,
                        v.limited,
                        omega arith,
                        front-repeat size,
                      ),
                    ))))
          | inr other ↦
              rw (live, handle_finish)
                (rw (e, handle_finish)
                  (rw (other, handle_finish)
                    (inl (reply-Handled (nack_frame seq) rejected v.clear))))
        ]
      ]
    ]

    -- The place of a frame in the window is its place in the stream.
    offset-place :
        (f : Frame) (off : ℕ)
        → IsNear sent.byte given f
        → offset r f.seq ≡ some off
        → sent.byte (given + 0 + off) ≡ f.payload
    unfolding offset
    offset-place f off near e =
        let place : given + 0 + off ≡ near.place =
          ground
            (arith, v.holds.expected, near.number, near.not_ahead, near.not_behind, v.limited) in
        ap sent.byte place ∙ sym near.byte

    accept-Handled :
        (f : Frame) (off : ℕ)
        → IsNear sent.byte given f
        → offset r f.seq ≡ some off
        → Keeps sent given (accept r f off)
    unfolding accept begin_reply load offset
    accept-Handled f off near e = elim (Bool-cases (is_some (get_or r.buf off none))) [
      | inl kept ↦
          rw (kept, accept)
            (v.empty, (v.holds, v.limited, omega arith, Ready-accept off r.buf (λ ne. v.clear)))
      | inr fresh ↦
          let buf = set r.buf off (some f.payload) in
          let own = offset-place f off near e in
          let holds : Reaches sent size given 0 r.expected_seq buf r.emit r.emit_at r.emit_len =
            record {
              expected = v.holds.expected;
              slots = length-set r.buf off (some f.payload) ∙ v.holds.slots;
              buffered =
                  subst (λ b. Buffered sent.byte (given + 0) (set r.buf off (some b))) own
                    (Buffered-set sent.byte (given + 0) off r.buf v.holds.buffered);
              queue = v.holds.queue;
              kept = omega (arith, v.holds.kept, held-le-set r.buf off f.payload);
            } in
          let front : off ≢ 0 → get_or buf 0 none ≡ none =
            λ ne. get_or-set_ne r.buf off 0 (some f.payload) none (λ z. ne (sym z)) ∙ v.clear in
          rw (fresh, accept) (v.empty, (holds, v.limited, omega arith, Ready-accept off buf front))
    ]

    pub handle_data-Handled :
        (f : Frame) → IsNear sent.byte given f → Keeps sent given (handle_data r f)
    unfolding handle_data begin_reply load
    handle_data-Handled f near = elim (Bool-cases r.abort_latched) [
      | inl dead ↦ rw (dead, handle_data) (v.empty, quiet-IsValid)
      | inr live ↦ elim (Bool-cases (is_some r.finish_seq)) [
        | inl done ↦ rw (live, handle_data) (rw (done, handle_data) (v.empty, quiet-IsValid))
        | inr still ↦
            rw (live, handle_data)
              (rw (still, handle_data)
                (elim (Option-cases (offset r f.seq)) [
                  | inr (off, e) ↦ rw e (accept-Handled f off near e)
                  | inl e ↦ rw e (elim (Bool-cases (is_duplicate r f.seq)) [
                    | inl old ↦ rw old (reply-Handled (ack_frame f.seq) duplicate v.clear)
                    | inr out ↦ rw out (reply-Handled (nack_frame f.seq) rejected v.clear)
                  ])
                ]))
      ]
    ]
