-- ===== src/Link/Receiving.antt =====
-- What a frame does to the link when it is lost, damaged or reaches the receiver.
use psicose.Prelude.{
  ℕ, ◌+◌, ◌%◌, ◌<◌, List, [], ◌∷◌, ◌++◌, Option, some, ◌≡◌, sym, ap, ◌∙◌, arith, ◌⊎◌, inl, inr,
}
use mathlib.Core.List.{append-nil}
use psicose.Protocol.Frame.{Frame, FrameError, ack_frame, nack_frame}
use psicose.Tx.State.{Sender}
use psicose.Rx.State.{Receiver, PollOutcome}
use psicose.Link.Channel.{All-snoc, Mixed-of_old, Mixed-snoc, Mixed-head, Mixed-rest, Reply, before}
use psicose.Link.Exchange.{
  Exchange, Leaves, IsOpen, receive, receive_noise, receive-expected, receive-previous,
  receive_noise-nack,
}
use psicose.Link.System.{bytes_of}
use psicose.Link.Phases.{
  Phase, resting, undelivered, delivered_once, Resting, Undelivered, Delivered,
}

-- The channels lose the frame at their head.
module _ {T : Type 0} {s : Sender T} {n m : ℕ} (fw bw : List Frame) {acc rec : List ℕ}
    (f : Frame) where
  pub loses_forward-Phase : Phase s n m (f ∷ fw) bw acc rec → Phase s n m fw bw acc rec
  loses_forward-Phase (resting r) = resting (record {
    ready = r.ready;
    landed = r.landed;
    level = r.level;
    old_data = r.old_data.1;
    old_replies = r.old_replies;
    all_received = r.all_received;
  })
  loses_forward-Phase (undelivered b u) = undelivered b (record {
    sends = u.sends;
    level = u.level;
    ahead = Mixed-rest u.ahead;
    old_replies = u.old_replies;
    one_missing = u.one_missing;
  })
  loses_forward-Phase (delivered_once b d) = delivered_once b (record {
    sends = d.sends;
    level = d.level;
    again = d.again.1;
    replies = d.replies;
    all_received = d.all_received;
  })

  pub loses_backward-Phase : Phase s n m fw (f ∷ bw) acc rec → Phase s n m fw bw acc rec
  loses_backward-Phase (resting r) = resting (record {
    ready = r.ready;
    landed = r.landed;
    level = r.level;
    old_data = r.old_data;
    old_replies = r.old_replies.1;
    all_received = r.all_received;
  })
  loses_backward-Phase (undelivered b u) = undelivered b (record {
    sends = u.sends;
    level = u.level;
    ahead = u.ahead;
    old_replies = u.old_replies.1;
    one_missing = u.one_missing;
  })
  loses_backward-Phase (delivered_once b d) = delivered_once b (record {
    sends = d.sends;
    level = d.level;
    again = d.again;
    replies = Mixed-rest d.replies;
    all_received = d.all_received;
  })

  -- A reply that is old and new at once, as a NACK is, or an ACK that the phase allows.
  replies-Phase :
      ((b : ℕ) → Delivered s n m fw bw acc rec b → Reply n f)
      → (Resting s n m fw bw acc rec → Reply (before n) f)
      → ((b : ℕ) → Undelivered s n m fw bw acc rec b → Reply (before n) f)
      → Phase s n m fw bw acc rec
      → Phase s n m fw (bw ++ f ∷ []) acc rec
  replies-Phase dd rr uu (resting r) = resting (record {
    ready = r.ready;
    landed = r.landed;
    level = r.level;
    old_data = r.old_data;
    old_replies = All-snoc _ bw f r.old_replies (rr r);
    all_received = r.all_received;
  })
  replies-Phase dd rr uu (undelivered b u) = undelivered b (record {
    sends = u.sends;
    level = u.level;
    ahead = u.ahead;
    old_replies = All-snoc _ bw f u.old_replies (uu b u);
    one_missing = u.one_missing;
  })
  replies-Phase dd rr uu (delivered_once b d) = delivered_once b (record {
    sends = d.sends;
    level = d.level;
    again = d.again;
    replies = Mixed-snoc f d.replies (dd b d);
    all_received = d.all_received;
  })

module _ {T : Type 0} {s : Sender T} {n : ℕ} (fw bw : List Frame) (acc rec : List ℕ) where
  -- A phase, over what an exchange is known to leave.
  settled :
      (x : Exchange T) (m : ℕ) (o : Option PollOutcome) (f : Frame)
      → Leaves x m o f
      → Phase s n m fw (bw ++ f ∷ []) acc (rec ++ bytes_of o)
      → Phase s n x.after.expected_seq.raw fw (bw ++ x.reply) acc (rec ++ bytes_of x.outcome)
  settled x m o f k p = rw (k.1, k.2, k.3) p

  -- A frame that is acknowledged a second time.
  known :
      (r : Receiver T) (f : Frame)
      → IsOpen r
      → f.seq ≡ before r.expected_seq.raw
      → Phase s n r.expected_seq.raw fw (bw ++ ack_frame f.seq ∷ []) acc rec
      → Phase s n
          (receive r f).after.expected_seq.raw
          fw
          (bw ++ (receive r f).reply)
          acc
          (rec ++ bytes_of (receive r f).outcome)
  known r f o q p = settled (receive r f) _ _ _ (receive-previous r o f q) (rw (append-nil rec) p)

  pub receives-Phase :
      (r : Receiver T) (f : Frame)
      → IsOpen r
      → n < 256
      → Phase s n r.expected_seq.raw (f ∷ fw) bw acc rec
      → Phase s n
          (receive r f).after.expected_seq.raw
          fw
          (bw ++ (receive r f).reply)
          acc
          (rec ++ bytes_of (receive r f).outcome)
  unfolding ack_frame
  receives-Phase r f o h (resting p) =
      let old : f.seq ≡ before n = p.old_data.0 in
      known r f o (old ∙ ap before (sym p.level)) (
        resting (record {
          ready = p.ready;
          landed = p.landed;
          level = p.level;
          old_data = p.old_data.1;
          old_replies = All-snoc (Reply (before n)) bw (ack_frame f.seq) p.old_replies old;
          all_received = p.all_received;
        }))
  receives-Phase r f o h (undelivered b u) = elim (Mixed-head u.ahead) [
    | inl (old, rest) ↦ known r f o (old ∙ ap before (sym u.level)) (
        undelivered b (record {
          sends = u.sends;
          level = u.level;
          ahead = rest;
          old_replies = All-snoc (Reply (before n)) bw (ack_frame f.seq) u.old_replies old;
          one_missing = u.one_missing;
        }))
    | inr (new, rest) ↦ settled (receive r f) _ _ _ (receive-expected r o f (new.0 ∙ sym u.level)) (
        delivered_once b (record {
          sends = u.sends;
          level = ap (λ k. (k + 1) % 256) u.level;
          again = rest;
          replies = Mixed-snoc _ (Mixed-of_old bw u.old_replies) u.level;
          all_received = ap (λ c. rec ++ c ∷ []) new.1 ∙ u.one_missing;
        }))
  ]
  receives-Phase r f o h (delivered_once b d) =
      let back : before r.expected_seq.raw ≡ n = omega (arith, d.level) in
      known r f o (d.again.0.0 ∙ sym back) (
        delivered_once b (record {
          sends = d.sends;
          level = d.level;
          again = d.again.1;
          replies = Mixed-snoc _ d.replies d.again.0.0;
          all_received = d.all_received;
        }))

  pub damages-Phase :
      (r : Receiver T) (e : FrameError)
      → IsOpen r
      → Phase s n r.expected_seq.raw fw bw acc rec
      → Phase s n
          (receive_noise r e).after.expected_seq.raw
          fw
          (bw ++ (receive_noise r e).reply)
          acc
          (rec ++ bytes_of (receive_noise r e).outcome)
  unfolding nack_frame
  damages-Phase r e o p =
      let k = receive_noise-nack r o e in
      rw (k.1, k.2, silent k.3, append-nil rec)
        (replies-Phase fw bw (nack_frame r.expected_seq.raw) (λ _ _. tt) (λ _. tt) (λ _ _. tt) p)
    where
      silent :
          {o : Option PollOutcome}
          → (o ≡ some PollOutcome.rejected) ⊎ (o ≡ some PollOutcome.crc_rejected)
          → bytes_of o ≡ []
      silent q = ground arith
