-- ===== src/Link/Phases.antt =====
-- tx.rs over lossy channels: the sender's part in each step, and where a byte can be.
use psicose.Prelude.{
  ℕ, ◌+◌, ◌%◌, ◌≤◌, ◌<◌, List, [], ◌∷◌, ◌++◌, true, false, Option, none, some, ◌≡◌, ◌≢◌, arith, ok,
  ◌⊎◌, All,
}
use psicose.Protocol.Frame.{Frame, FrameType, data_frame}
use psicose.Tx.State.{Sender, idle, failed, InFlight, dat, frame_of, load_flight_frame}
use psicose.Tx.Offer.{offer}
use psicose.Tx.Poll.{on_control, on_attempt_failed}
use psicose.Tx.Valid.{IsValid, Flying}
use psicose.Link.Channel.{Mixed, Stale, Fresh, Reply, before}
use psicose.Link.Exchange.{IsOpen, transmit}
use psicose.Link.System.{Link}

abbrev pub Flies : ℕ → Option InFlight → Type 0
Flies b none = ⊥
Flies b (some g) = g.kind ≡ dat b

-- The sender is busy with this byte, or gave up on it.
abbrev pub Sends : {T : Type 0} → Sender T → ℕ → Type 0
Sends s b = (s.state ≡ failed) ⊎ Flies b s.inflight

-- The sender's own part in a step.
module _ {T : Type 0} (E : Type 0) (s : Sender T) (v : IsValid s) where
  pub offer-takes :
      (b : ℕ)
      → (offer {E = E} s b).1 ≡ ok tt
      → (s.state ≡ idle)
        × (s.inflight ≡ none)
        × ((offer {E = E} s b).0.seq.raw ≡ s.seq.raw)
        × Sends (offer {E = E} s b).0 b
  unfolding offer
  offer-takes b = ground arith

  -- A frame that is no ACK of the flight leaves the byte with the sender.
  pub ignores :
      (b m : ℕ) (f : Frame)
      → Sends s b
      → Reply m f
      → (f.seq ≢ s.seq.raw) ⊎ (f.frame_type ≡ FrameType.nack)
      → Sends (on_control {E = E} s f).0 b × ((on_control {E = E} s f).0.seq.raw ≡ s.seq.raw)
  unfolding on_control on_attempt_failed
  ignores b m f h r n = ground arith

  -- The ACK of the flight frees the sender for the next number.
  pub acknowledged :
      (b : ℕ) (f : Frame)
      → Flies b s.inflight
      → f.frame_type ≡ FrameType.ack
      → f.seq ≡ s.seq.raw
      → ((on_control {E = E} s f).0.state ≡ idle)
        × ((on_control {E = E} s f).0.inflight ≡ none)
        × ((on_control {E = E} s f).0.seq.raw ≡ (s.seq.raw + 1) % 256)
  unfolding on_control
  acknowledged b f h t e = ground arith

  pub retries :
      (b : ℕ)
      → Sends s b
      → Sends (on_attempt_failed {E = E} s).0 b
        × ((on_attempt_failed {E = E} s).0.seq.raw ≡ s.seq.raw)
  unfolding on_attempt_failed
  retries b h = ground arith

  pub still-Flies : (b : ℕ) (g : InFlight) → s.inflight ≡ some g → Sends s b → Flies b s.inflight
  still-Flies b g e h = ground arith

  pub transmit-Sends :
      (b : ℕ) (g : InFlight)
      → s.inflight ≡ some g
      → Sends s b
      → Sends (transmit s) b × ((transmit s).seq.raw ≡ s.seq.raw)
  unfolding transmit load_flight_frame
  transmit-Sends b g e h = ground arith

  pub transmit-IsValid :
      (g : InFlight) → s.inflight ≡ some g → g.waiting ≡ false → IsValid (transmit s)
  unfolding transmit load_flight_frame
  transmit-IsValid g e w = ground arith

  -- A flight that waits for its reply has been written.
  pub waits :
      (g : InFlight)
      → s.inflight ≡ some g
      → g.waiting ≡ true
      → Flying true s.inflight × (4 ≤ s.out.pos)
  waits g e w = ground arith

  -- What a flight that is not given up puts on the wire.
  pub carried :
      (b : ℕ) (g : InFlight)
      → s.inflight ≡ some g
      → Sends s b
      → Fresh s.seq.raw b (frame_of g.kind g.seq)
  unfolding frame_of data_frame
  carried b g e h = ground arith

module _ {T : Type 0} (s : Sender T) where
  pub transmit-seq : (g : InFlight) → s.inflight ≡ some g → (transmit s).seq.raw ≡ s.seq.raw
  unfolding transmit load_flight_frame
  transmit-seq g e = ground arith

  pub idle-landed : IsValid s → s.state ≡ idle → s.inflight ≡ none
  idle-landed v e = ground arith

  pub not_idle : IsValid s → (b : ℕ) → Sends s b → s.state ≡ idle → ⊥
  not_idle v b h e = ground arith

pub failed-seq :
    {T : Type 0} (E : Type 0) (s : Sender T) → (on_attempt_failed {E = E} s).0.seq.raw ≡ s.seq.raw
unfolding on_attempt_failed
failed-seq E s = ground arith

-- An old reply is no ACK of the number after it.
pub old-Reply :
    (n : ℕ) (f : Frame)
    → n < 256
    → Reply (before n) f
    → (f.seq ≢ n) ⊎ (f.frame_type ≡ FrameType.nack)
old-Reply n f h r = ground arith

pub new-Reply :
    (n : ℕ) (f : Frame)
    → Reply n f
    → ((f.frame_type ≡ FrameType.ack) × (f.seq ≡ n)) ⊎ (f.frame_type ≡ FrameType.nack)
new-Reply n f r = ground arith

-- Where a byte can be, for a sender at number `n` and a receiver that expects `m`.
module _ {T : Type 0} (s : Sender T) (n m : ℕ) (forward backward : List Frame)
    (accepted received : List ℕ) where
  -- No byte is under way.
  pub record Resting : Type 0 where
    pub ready : s.state ≡ idle
    pub landed : s.inflight ≡ none
    pub level : m ≡ n
    pub old_data : All (Stale n) forward
    pub old_replies : All (Reply (before n)) backward
    pub all_received : received ≡ accepted

  -- The byte has been offered, and not been delivered.
  pub record Undelivered (b : ℕ) : Type 0 where
    pub sends : Sends s b
    pub level : m ≡ n
    pub ahead : Mixed (Stale n) (Fresh n b) forward
    pub old_replies : All (Reply (before n)) backward
    pub one_missing : received ++ b ∷ [] ≡ accepted

  -- The byte has been delivered, and the sender does not know it.
  pub record Delivered (b : ℕ) : Type 0 where
    pub sends : Sends s b
    pub level : m ≡ (n + 1) % 256
    pub again : All (Fresh n b) forward
    pub replies : Mixed (Reply (before n)) (Reply n) backward
    pub all_received : received ≡ accepted

  pub data Phase : Type 0 where
    resting : Resting → Phase
    undelivered : (b : ℕ) → Undelivered b → Phase
    delivered_once : (b : ℕ) → Delivered b → Phase

-- Another sender that has the same byte takes the place of this one.
module _ {T : Type 0} {s : Sender T} (s' : Sender T) {n m : ℕ} {fw bw : List Frame}
    {acc rec : List ℕ} {b : ℕ} (busy : Sends s' b) where
  pub Undelivered-sender : Undelivered s n m fw bw acc rec b → Undelivered s' n m fw bw acc rec b
  Undelivered-sender u = record {
    sends = busy;
    level = u.level;
    ahead = u.ahead;
    old_replies = u.old_replies;
    one_missing = u.one_missing;
  }

  pub Delivered-sender : Delivered s n m fw bw acc rec b → Delivered s' n m fw bw acc rec b
  Delivered-sender d = record {
    sends = busy;
    level = d.level;
    again = d.again;
    replies = d.replies;
    all_received = d.all_received;
  }

pub record Inv {T : Type 0} (l : Link T) : Type 0 where
  pub sender_valid : IsValid l.sender
  pub receiver_open : IsOpen l.receiver
  pub phase :
      Phase l.sender l.sender.seq.raw l.receiver.expected_seq.raw l.forward l.backward l.accepted
        l.received
