-- ===== src/Window/Rx/Drain.antt =====
-- window/rx.rs: the emission queue and the loop that fills it keep their place in the stream.
use psicose.Prelude.{
  ℕ, zero, suc, ◌+◌, ◌≤◌, ◌<◌, ◌≡◌, refl, ap, sym, ◌∙◌, inl, inr, arith, true, false, none, some,
  leb, get_or, Bool-cases, subst, Option-cases,
}
use psicose.Protocol.Sequence.{Sequence}
use psicose.Protocol.Sequence
use psicose.Window.Rx.{
  WindowedReceiver, shift_buf, push_emit, pop_emit, release_front, drain_rounds, drain_in_order,
}
use psicose.Window.Rx.Order.{
  Buffered, leading, leading-le, leading-none, front, push-IsQueue, pop-IsQueue, empty-IsQueue,
  Holds, Stream, held-front,
}

module _ {T : Type 0} (sent : Stream) (size : ℕ) where
  -- `pop_emit` of an empty queue, and of one that holds a byte.
  pub pop_emit-none :
      (given : ℕ) (r : WindowedReceiver T)
      → Holds sent size given 0 r
      → pop_emit r ≡ (record r { emit_at = 0; emit_len = 0 }, none)
  unfolding pop_emit
  pop_emit-none given r h =
      let done : leb r.emit_len r.emit_at ≡ true = ground (arith, h.queue.reaches) in rw done refl

  pub pop_emit-some :
      (given waits : ℕ) (r : WindowedReceiver T)
      → Holds sent size given (suc waits) r
      → ((pop_emit r).1 ≡ some (sent.byte given)) × Holds sent size (suc given) waits (pop_emit r).0
  unfolding pop_emit
  pop_emit-some given waits r h =
      let more : leb r.emit_len r.emit_at ≡ false = ground (arith, h.queue.reaches) in
      let number : given + suc waits ≡ suc given + waits = omega arith in
      let place : r.emit_at + 0 ≡ r.emit_at = omega arith in
      let same : given + 0 ≡ given = omega arith in
      let first : get_or r.emit r.emit_at 0 ≡ sent.byte given =
        ap (λ i. get_or r.emit i 0) (sym place)
        ∙ h.queue.bytes 0 (omega arith)
        ∙ ap sent.byte same in
      let buffered : Buffered sent.byte (suc given + waits) r.buf =
        subst (λ k. Buffered sent.byte k r.buf) number h.buffered in
      elim (Bool-cases (leb r.emit_len (r.emit_at + 1))) [
        | inl last ↦
            let over : waits ≡ 0 = ground (arith, h.queue.reaches) in
            rw (more, pop_emit)
              (rw last (
                ap some first,
                record {
                  expected = omega (arith, h.expected);
                  slots = h.slots;
                  buffered = buffered;
                  queue = rw over (empty-IsQueue sent.byte size (suc given) r.emit h.queue.room);
                  kept = omega (arith, h.kept);
                },
              ))
        | inr rest ↦
            rw (more, pop_emit)
              (rw rest (
                ap some first,
                record {
                  expected = omega (arith, h.expected);
                  slots = h.slots;
                  buffered = buffered;
                  queue =
                      pop-IsQueue sent.byte size given waits r.emit r.emit_at r.emit_len h.queue;
                  kept = omega (arith, h.kept);
                },
              ))
      ]

  release_front-Holds :
      (given waits byte : ℕ) (r : WindowedReceiver T)
      → Holds sent size given waits r
      → r.emit_len < size
      → get_or r.buf 0 none ≡ some byte
      → Holds sent size given (suc waits) (release_front size r byte)
        × ((release_front size r byte).emit_len ≡ r.emit_len + 1)
        × (suc (leading (release_front size r byte).buf) ≡ leading r.buf)
  unfolding release_front push_emit shift_buf Sequence.advance
  release_front-Holds given waits byte r h lt e =
      let free : leb size r.emit_len ≡ false = ground arith in
      let (own, buffered, fewer, same) = front sent.byte (given + waits) byte r.buf e h.buffered in
      let number : given + suc waits ≡ suc (given + waits) = omega arith in
      rw (free, push_emit)
        (
          record {
            expected = omega (arith, h.expected);
            slots = same ∙ h.slots;
            buffered = rw number buffered;
            kept = omega (arith, h.kept, held-front r.buf);
            queue =
                push-IsQueue sent.byte size given waits r.emit r.emit_at r.emit_len byte h.queue lt
                  own;
          },
          refl,
          fewer,
        )

  -- After enough rounds the front of the buffer is free.
  drain_rounds-Holds :
      (rounds given waits : ℕ) (r : WindowedReceiver T)
      → Holds sent size given waits r
      → r.emit_len + rounds ≤ size
      → leading r.buf ≤ rounds
      → (more : ℕ) × Holds sent size given (waits + more) (drain_rounds size rounds r)
        × (get_or (drain_rounds size rounds r).buf 0 none ≡ none)
  unfolding drain_rounds
  drain_rounds-Holds zero given waits r h lt le =
      let same : waits + 0 ≡ waits = omega arith in (0, rw same h, leading-none r.buf le)
  drain_rounds-Holds (suc rounds) given waits r h lt le =
      elim (Option-cases (get_or r.buf 0 none)) [
        | inl e ↦
            let same : waits + 0 ≡ waits = omega arith in rw (e, drain_rounds) (0, rw same h, e)
        | inr (byte, e) ↦
            let (h', len, fewer) = release_front-Holds given waits byte r h (omega arith) e in
            let (more, h'', clear) =
              drain_rounds-Holds rounds given (suc waits) (release_front size r byte) h'
                (omega (arith, len)) (omega (arith, fewer)) in
            let number : waits + suc more ≡ suc waits + more = omega arith in
            rw (e, drain_rounds) (suc more, rw number h'', clear)
      ]

  -- The loop ends with nothing in its place, and has put each byte that could go behind the others.
  pub drain_in_order-Holds :
      (given : ℕ) (r : WindowedReceiver T)
      → Holds sent size given 0 r
      → r.emit_len ≡ 0
      → (waits : ℕ) × Holds sent size given waits (drain_in_order size r)
        × (get_or (drain_in_order size r).buf 0 none ≡ none)
  unfolding drain_in_order
  drain_in_order-Holds given r h e =
      let (waits, h', clear) =
        drain_rounds-Holds size given 0 r h (omega arith)
          (omega (arith, leading-le r.buf, h.slots)) in
      let same : 0 + waits ≡ waits = omega arith in
      (waits, subst (λ w. Holds sent size given w (drain_rounds size size r)) same h', clear)

  -- What the loop leaves alone.
  abbrev pub SameReply : WindowedReceiver T → WindowedReceiver T → Type 0
  SameReply r r' = (r'.out ≡ r.out) × (r'.pending ≡ r.pending) × (r'.limit ≡ r.limit)

  release_front-SameReply : (r : WindowedReceiver T) (b : ℕ) → SameReply r (release_front size r b)
  unfolding release_front push_emit
  release_front-SameReply r b = ground arith

  drain_rounds-SameReply :
      (rounds : ℕ) (r : WindowedReceiver T) → SameReply r (drain_rounds size rounds r)
  unfolding drain_rounds
  drain_rounds-SameReply zero r = (refl, refl, refl)
  drain_rounds-SameReply (suc rounds) r = elim (Option-cases (get_or r.buf 0 none)) [
    | inl e ↦ rw (e, drain_rounds) (refl, refl, refl)
    | inr (b, e) ↦
        let (o, p, l) = release_front-SameReply r b in
        let (o', p', l') = drain_rounds-SameReply rounds (release_front size r b) in
        rw (e, drain_rounds) (o' ∙ o, p' ∙ p, l' ∙ l)
  ]

  pub drain_in_order-SameReply : (r : WindowedReceiver T) → SameReply r (drain_in_order size r)
  unfolding drain_in_order
  drain_in_order-SameReply r = drain_rounds-SameReply size r

  pub pop_emit-SameReply :
      (r : WindowedReceiver T) → SameReply r (pop_emit r).0 × ((pop_emit r).0.buf ≡ r.buf)
  unfolding pop_emit
  pop_emit-SameReply r = ground arith
