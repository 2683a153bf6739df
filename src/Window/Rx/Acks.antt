-- ===== src/Window/Rx/Acks.antt =====
-- window/rx.rs: which data frames the receiver acknowledges.
use psicose.Prelude.{
  ℕ, zero, suc, ◌+◌, ◌-◌, ◌≤◌, ◌<◌, ◌≡◌, refl, ap, sym, ◌∙◌, ◌⊎◌, inl, inr, arith, List, [], ◌∷◌,
  Option, none, some, true, false, ltb, get_or, get_or-set_self, Bool-cases, Option-cases,
}
use psicose.Protocol.Frame.{Frame, ack_frame, nack_frame, to_bytes}
use psicose.Protocol.OutBuf.{load}
use psicose.Rx.State.{is_some}
use psicose.Window.Rx.{
  WindowedReceiver, offset, is_duplicate, is_closed, begin_reply, accept, handle_data,
}
use psicose.Window.Rx.Order.{Stream, Buffered}
use psicose.Window.Rx.Handlers.{IsQuiet, IsNear}

-- A buffered byte is that of its place.
Buffered-get :
    (sent : ℕ → ℕ) (k i b : ℕ) (slots : List (Option ℕ))
    → Buffered sent k slots
    → get_or slots i none ≡ some b
    → b ≡ sent (k + i)
Buffered-get sent k i b [] h e = absurd (ground arith)
Buffered-get sent k zero b (none ∷ slots) h e = absurd (ground arith)
Buffered-get sent k zero b (some c ∷ slots) (own, h) e =
    let same : c ≡ b = ground arith in
    let place : k ≡ k + 0 = omega arith in sym same ∙ own ∙ ap sent place
Buffered-get sent k (suc i) b (none ∷ slots) h e =
    let next : suc k + i ≡ k + suc i = omega arith in
    Buffered-get sent (suc k) i b slots h e ∙ ap sent next
Buffered-get sent k (suc i) b (some c ∷ slots) (own, h) e =
    let next : suc k + i ≡ k + suc i = omega arith in
    Buffered-get sent (suc k) i b slots h e ∙ ap sent next

-- An ACK, of a byte that is handed over or in the buffer at its place; or a NACK, of one that is
-- not within `limit` places of the next byte that is due.
abbrev pub Replied : {T : Type 0} → ℕ → ℕ → Frame → WindowedReceiver T → WindowedReceiver T → Type 0
Replied given place f r r' =
    ((r'.out.buf ≡ to_bytes (ack_frame f.seq))
      × ((place < given) ⊎ (get_or r'.buf (place - given) none ≡ some f.payload)))
    ⊎ ((r'.out.buf ≡ to_bytes (nack_frame f.seq))
        × (r'.buf ≡ r.buf)
        × ((given + r.limit ≤ place) ⊎ (place + r.limit < given)))

module _ {T : Type 0} (size : ℕ) (sent : Stream) (given : ℕ) (r : WindowedReceiver T)
    (v : IsQuiet sent size given r) (f : Frame) (near : IsNear sent.byte given f) where
  offset-near : (off : ℕ) → offset r f.seq ≡ some off → (near.place ≡ given + off) × (off < r.limit)
  unfolding offset
  offset-near off e =
      ground (arith, v.holds.expected, near.number, near.not_ahead, near.not_behind, v.limited)

  duplicate-behind : offset r f.seq ≡ none → is_duplicate r f.seq ≡ true → near.place < given
  unfolding offset is_duplicate
  duplicate-behind e d =
      ground (arith, v.holds.expected, near.number, near.not_ahead, near.not_behind, v.limited)

  far_away :
      offset r f.seq ≡ none
      → is_duplicate r f.seq ≡ false
      → (given + r.limit ≤ near.place) ⊎ (near.place + r.limit < given)
  unfolding offset is_duplicate
  far_away e d = elim (Bool-cases (ltb near.place given)) [
    | inl behind ↦
        inr (
          ground (arith, v.holds.expected, near.number, near.not_ahead, near.not_behind, v.limited))
    | inr ahead ↦
        inl (
          ground (arith, v.holds.expected, near.number, near.not_ahead, near.not_behind, v.limited))
  ]

  -- The byte of a frame inside the window is in the buffer, whether it came before or now.
  accept-stores :
      (off : ℕ) → offset r f.seq ≡ some off → get_or (accept r f off).buf off none ≡ some f.payload
  unfolding accept begin_reply
  accept-stores off e =
      let (at, inside) = offset-near off e in
      elim (Option-cases (get_or r.buf off none)) [
        | inl fresh ↦
            rw (fresh, accept)
              (get_or-set_self r.buf off (some f.payload) none
                (omega (arith, v.holds.slots, v.limited)))
        | inr (b, kept) ↦
            let own = Buffered-get sent.byte (given + 0) off b r.buf v.holds.buffered kept in
            let place : given + 0 + off ≡ near.place = omega arith in
            rw (kept, accept) (kept ∙ ap some (own ∙ ap sent.byte place ∙ sym near.byte))
      ]

  accept-Replied :
      (off : ℕ) → offset r f.seq ≡ some off → Replied given near.place f r (accept r f off)
  accept-Replied off e =
      let (at, inside) = offset-near off e in
      let place : near.place - given ≡ off = omega arith in
      inl (unfold accept begin_reply load in refl, inr (rw place (accept-stores off e)))

  -- A windowed receiver that keeps its place in the stream and is open, with no reply under way and
  -- nothing to hand over, answers a data frame of the stream that is less than 100 places from the
  -- next byte that is due. It acknowledges the frame's number only where it has handed the frame's
  -- byte over already, or then has it in its buffer at the byte's place. It refuses the number, and
  -- leaves the buffer as it was, only where the frame is ahead of that next byte by `limit` places
  -- or more, or behind it by more than `limit`.
  pub handle_data-Replied : is_closed r ≡ false → Replied given near.place f r (handle_data r f)
  unfolding handle_data is_closed begin_reply load
  handle_data-Replied listens = elim (Bool-cases r.abort_latched) [
    | inl dead ↦ absurd (ground arith)
    | inr live ↦
        let still : is_some r.finish_seq ≡ false = ground arith in
        rw (live, handle_data)
          (rw (still, handle_data)
            (elim (Option-cases (offset r f.seq)) [
              | inr (off, e) ↦ rw e (accept-Replied off e)
              | inl e ↦ rw e (elim (Bool-cases (is_duplicate r f.seq)) [
                | inl old ↦ rw old (inl (refl, inl (duplicate-behind e old)))
                | inr out ↦ rw out (inr (refl, refl, far_away e out))
              ])
            ]))
  ]
