-- ===== src/Link/Sending.antt =====
-- What the sender's own moves do to the link: an offer, a frame sent, a time-out, a reply.
use psicose.Prelude.{
  ℕ, ◌+◌, ◌%◌, List, [], ◌∷◌, ◌++◌, some, ◌≡◌, ◌≢◌, sym, ap, ◌∙◌, arith, ok, ◌⊎◌, inl, inr, All,
}
use psicose.Protocol.Frame.{Frame, FrameType}
use psicose.Tx.State.{Sender, InFlight, frame_of}
use psicose.Tx.Offer.{offer}
use psicose.Tx.Poll.{on_control, on_attempt_failed}
use psicose.Tx.Valid.{IsValid}
use psicose.Link.Channel.{
  Mixed, All-snoc, All-map, Mixed-of_old, Mixed-snoc, Mixed-head, Mixed-of_new, Reply, before,
}
use psicose.Link.Exchange.{transmit}
use psicose.Link.Phases.{
  Sends, Phase, resting, undelivered, delivered_once, Resting, Delivered, offer-takes, ignores,
  acknowledged, retries, transmit-Sends, carried, still-Flies, old-Reply, new-Reply,
  Undelivered-sender, Delivered-sender,
}

module _ {T : Type 0} (E : Type 0) (s : Sender T) (v : IsValid s) where
  pub offers-Phase :
      {m : ℕ} {fw bw : List Frame} {acc rec : List ℕ} (b : ℕ)
      → (offer {E = E} s b).1 ≡ ok tt
      → Phase s s.seq.raw m fw bw acc rec
      → Phase (offer {E = E} s b).0 s.seq.raw m fw bw (acc ++ b ∷ []) rec
  offers-Phase {m} {fw} b t (resting r) = undelivered b (record {
    sends = (offer-takes E s v b t).3;
    level = r.level;
    ahead = Mixed-of_old fw r.old_data;
    old_replies = r.old_replies;
    one_missing = ap (λ xs. xs ++ b ∷ []) r.all_received;
  })
  offers-Phase b t (undelivered c u) = absurd (busy u.sends)
    where
      busy : Sends s c → ⊥
      busy h = ground (arith, offer-takes E s v b t)
  offers-Phase b t (delivered_once c d) = absurd (busy d.sends)
    where
      busy : Sends s c → ⊥
      busy h = ground (arith, offer-takes E s v b t)

  pub transmits-Phase :
      {m : ℕ} {fw bw : List Frame} {acc rec : List ℕ} (g : InFlight)
      → s.inflight ≡ some g
      → Phase s s.seq.raw m fw bw acc rec
      → Phase (transmit s) s.seq.raw m (fw ++ frame_of g.kind g.seq ∷ []) bw acc rec
  transmits-Phase g e (resting r) = absurd (ground (arith, r.landed))
  transmits-Phase g e (undelivered b u) = undelivered b (record {
    sends = (transmit-Sends E s v b g e u.sends).0;
    level = u.level;
    ahead = Mixed-snoc _ u.ahead (carried E s v b g e u.sends);
    old_replies = u.old_replies;
    one_missing = u.one_missing;
  })
  transmits-Phase {fw = fw} g e (delivered_once b d) = delivered_once b (record {
    sends = (transmit-Sends E s v b g e d.sends).0;
    level = d.level;
    again = All-snoc _ fw _ d.again (carried E s v b g e d.sends);
    replies = d.replies;
    all_received = d.all_received;
  })

  pub times_out-Phase :
      {m : ℕ} {fw bw : List Frame} {acc rec : List ℕ} (g : InFlight)
      → s.inflight ≡ some g
      → Phase s s.seq.raw m fw bw acc rec
      → Phase (on_attempt_failed {E = E} s).0 s.seq.raw m fw bw acc rec
  times_out-Phase g e (resting r) = absurd (ground (arith, r.landed))
  times_out-Phase g e (undelivered b u) =
      undelivered b (Undelivered-sender _ (retries E s v b u.sends).0 u)
  times_out-Phase g e (delivered_once b d) =
      delivered_once b (Delivered-sender _ (retries E s v b d.sends).0 d)

  -- The ACK of a delivered byte brings both sides to rest at the next number.
  lands :
      {m : ℕ} {fw bw : List Frame} {acc rec : List ℕ} (b : ℕ) (g : InFlight) (f : Frame)
      → s.inflight ≡ some g
      → Delivered s s.seq.raw m fw (f ∷ bw) acc rec b
      → f.frame_type ≡ FrameType.ack
      → f.seq ≡ s.seq.raw
      → All (Reply s.seq.raw) bw
      → Resting (on_control {E = E} s f).0 ((s.seq.raw + 1) % 256) m fw bw acc rec
  lands {m} {fw} {bw} b g f e d t q h =
      let a = acknowledged E s v b f (still-Flies E s v b g e d.sends) t q in
      let back : before ((s.seq.raw + 1) % 256) ≡ s.seq.raw = omega (arith, v.seq_byte) in
      record {
        ready = a.0;
        landed = a.1;
        level = d.level;
        old_data = All-map fw (λ x p. p.0 ∙ sym back) d.again;
        old_replies = rw back h;
        all_received = d.all_received;
      }

  pub hears-Phase :
      {m : ℕ} {fw : List Frame} (bw : List Frame) {acc rec : List ℕ} (g : InFlight) (f : Frame)
      → s.inflight ≡ some g
      → Phase s s.seq.raw m fw (f ∷ bw) acc rec
      → Phase (on_control {E = E} s f).0 (on_control {E = E} s f).0.seq.raw m fw bw acc rec
  hears-Phase bw g f e (resting r) = absurd (ground (arith, r.landed))
  hears-Phase bw g f e (undelivered b u) =
      let k =
        ignores E s v b (before s.seq.raw) f u.sends u.old_replies.0
          (old-Reply s.seq.raw f v.seq_byte u.old_replies.0) in
      rw k.1 (
        undelivered b (record {
          sends = k.0;
          level = u.level;
          ahead = u.ahead;
          old_replies = u.old_replies.1;
          one_missing = u.one_missing;
        }))
  hears-Phase {m} {fw} bw {acc} {rec} g f e (delivered_once b d) = elim (Mixed-head d.replies) [
    | inl (old, rest) ↦ stays (before s.seq.raw) old (old-Reply s.seq.raw f v.seq_byte old) rest
    | inr (new, rest) ↦ elim (new-Reply s.seq.raw f new) [
      | inl (t, q) ↦
          rw (acknowledged E s v b f (still-Flies E s v b g e d.sends) t q).2
            (resting (lands b g f e d t q rest))
      | inr nacked ↦ stays s.seq.raw new (inr nacked) (Mixed-of_new bw rest)
    ]
  ]
    where
      stays :
          (k : ℕ)
          → Reply k f
          → (f.seq ≢ s.seq.raw) ⊎ (f.frame_type ≡ FrameType.nack)
          → Mixed (Reply (before s.seq.raw)) (Reply s.seq.raw) bw
          → Phase (on_control {E = E} s f).0 (on_control {E = E} s f).0.seq.raw m fw bw acc rec
      stays k r n rest = rw (ignores E s v b k f d.sends r n).1 (
          delivered_once b (record {
            sends = (ignores E s v b k f d.sends r n).0;
            level = d.level;
            again = d.again;
            replies = rest;
            all_received = d.all_received;
          }))
