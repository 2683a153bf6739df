-- ===== src/Link/ExactlyOnce.antt =====
-- tx.rs and rx.rs over lossy channels: every byte is delivered once and in order.
use psicose.Prelude.{ℕ, [], ◌∷◌, ◌++◌, ◌≡◌, sym, ◌∙◌, ◌⊎◌, inl, inr}
use psicose.Tx.State.{idle}
use psicose.Tx.Valid.{IsValid, offer-IsValid, on_control-IsValid, on_attempt_failed-IsValid}
use psicose.Link.Exchange.{IsOpen, receive_noise-nack, receive-IsOpen}
use psicose.Link.System.{
  Link, Step, offers, transmits, loses_forward, damages, receives, loses_backward, hears, times_out,
  Reach, here, next,
}
use psicose.Link.Phases.{
  resting, undelivered, delivered_once, Inv, offer-takes, transmit-IsValid, waits, transmit-seq,
  failed-seq, idle-landed, not_idle,
}
use psicose.Link.Receiving.{
  loses_forward-Phase, loses_backward-Phase, receives-Phase, damages-Phase,
}
use psicose.Link.Sending.{offers-Phase, transmits-Phase, times_out-Phase, hears-Phase}

-- A step keeps the invariant.
Step-Inv : {T E : Type 0} {l l' : Link T} → Step E l l' → Inv l → Inv l'
Step-Inv {E = E} (offers l b t) i = record {
  sender_valid = offer-IsValid E l.sender b i.sender_valid;
  receiver_open = i.receiver_open;
  phase =
      simp (offer-takes E l.sender i.sender_valid b t).2
        (offers-Phase E l.sender i.sender_valid b t i.phase);
}
Step-Inv {E = E} (transmits l g e w) i = record {
  sender_valid = transmit-IsValid E l.sender i.sender_valid g e w;
  receiver_open = i.receiver_open;
  phase = simp (transmit-seq l.sender g e) (transmits-Phase E l.sender i.sender_valid g e i.phase);
}
Step-Inv (loses_forward l f rest e) i = record {
  sender_valid = i.sender_valid;
  receiver_open = i.receiver_open;
  phase = loses_forward-Phase rest l.backward f (rw e at i.phase);
}
Step-Inv (damages l f rest x e) i = record {
  sender_valid = i.sender_valid;
  receiver_open = (receive_noise-nack l.receiver i.receiver_open x).0;
  phase =
      damages-Phase rest l.backward l.accepted l.received l.receiver x i.receiver_open
        (loses_forward-Phase rest l.backward f (rw e at i.phase));
}
Step-Inv (receives l f rest e) i = record {
  sender_valid = i.sender_valid;
  receiver_open = receive-IsOpen l.receiver i.receiver_open f;
  phase =
      receives-Phase rest l.backward l.accepted l.received l.receiver f i.receiver_open
        i.sender_valid.seq_byte (rw e at i.phase);
}
Step-Inv (loses_backward l f rest e) i = record {
  sender_valid = i.sender_valid;
  receiver_open = i.receiver_open;
  phase = loses_backward-Phase l.forward rest f (rw e at i.phase);
}
Step-Inv {E = E} (hears l g f rest e w h) i = record {
  sender_valid =
      let k = waits E l.sender i.sender_valid g e w in
      on_control-IsValid E l.sender f i.sender_valid k.0 k.1;
  receiver_open = i.receiver_open;
  phase = hears-Phase E l.sender i.sender_valid rest g f e (rw h at i.phase);
}
Step-Inv {E = E} (times_out l g e w) i = record {
  sender_valid =
      let k = waits E l.sender i.sender_valid g e w in
      on_attempt_failed-IsValid E l.sender i.sender_valid k.0 k.1;
  receiver_open = i.receiver_open;
  phase = simp (failed-seq E l.sender) (times_out-Phase E l.sender i.sender_valid g e i.phase);
}

pub Reach-Inv : {T E : Type 0} {l l' : Link T} → Reach E l l' → Inv l → Inv l'
Reach-Inv here i = i
Reach-Inv (next r st) i = Step-Inv st (Reach-Inv r i)

-- A session in which START has been answered and no byte has been offered.
pub record IsStarted {T : Type 0} (l : Link T) : Type 0 where
  pub sender_valid : IsValid l.sender
  pub ready : l.sender.state ≡ idle
  pub receiver_open : IsOpen l.receiver
  pub level : l.receiver.expected_seq.raw ≡ l.sender.seq.raw
  pub forward_empty : l.forward ≡ []
  pub backward_empty : l.backward ≡ []
  pub none_accepted : l.accepted ≡ []
  pub none_received : l.received ≡ []

IsStarted-Inv : {T : Type 0} {l : Link T} → IsStarted l → Inv l
IsStarted-Inv {l = l} h = record {
  sender_valid = h.sender_valid;
  receiver_open = h.receiver_open;
  phase = resting (record {
    ready = h.ready;
    landed = idle-landed l.sender h.sender_valid h.ready;
    level = h.level;
    old_data = rw h.forward_empty tt;
    old_replies = rw h.backward_empty tt;
    all_received = h.none_received ∙ sym h.none_accepted;
  });
}

-- After any run of a started session over channels that keep the order but lose and damage
-- frames, with time-outs and retransmissions at any moment: the receiver has delivered the
-- accepted bytes, each once and in order, all of them or all but the last; and where the sender
-- is idle again, all of them.
pub delivered_exactly_once :
    {T E : Type 0} {l l' : Link T}
    → IsStarted l
    → Reach E l l'
    → ((l'.received ≡ l'.accepted) ⊎ ((b : ℕ) × (l'.received ++ b ∷ [] ≡ l'.accepted)))
      × (l'.sender.state ≡ idle → l'.received ≡ l'.accepted)
delivered_exactly_once {l' = l'} h r = conclude (Reach-Inv r (IsStarted-Inv h))
  where
    conclude :
        Inv l'
        → ((l'.received ≡ l'.accepted) ⊎ ((b : ℕ) × (l'.received ++ b ∷ [] ≡ l'.accepted)))
          × (l'.sender.state ≡ idle → l'.received ≡ l'.accepted)
    conclude i = elim i.phase [
      | resting p ↦ (inl p.all_received, λ _. p.all_received)
      | undelivered b u ↦
          (inr (b, u.one_missing), λ e. absurd (not_idle l'.sender i.sender_valid b u.sends e))
      | delivered_once b d ↦ (inl d.all_received, λ _. d.all_received)
    ]
