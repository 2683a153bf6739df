-- ===== src/Link/System.antt =====
-- A sender and a receiver in the DATA phase of a session, joined by two channels that keep the
-- order of the frames, and lose or damage any of them. The steps are the methods of tx.rs and
-- rx.rs; which one comes next is the environment's choice.
use psicose.Prelude.{ℕ, List, [], ◌∷◌, ◌++◌, true, false, Option, none, some, ◌≡◌, ok}
use psicose.Protocol.Frame.{Frame, FrameError}
use psicose.Tx.State.{Sender, InFlight, frame_of}
use psicose.Tx.Offer.{offer}
use psicose.Tx.Poll.{on_control, on_attempt_failed}
use psicose.Rx.State.{Receiver, PollOutcome, delivered}
use psicose.Link.Exchange.{Exchange, receive, receive_noise, transmit}

-- `forward` and `backward` are what is under way; `accepted` are the bytes that `offer` took,
-- `received` those that the receiver delivered.
pub record Link (T : Type 0) : Type 0 where
  pub sender : Sender T
  pub receiver : Receiver T
  pub forward : List Frame
  pub backward : List Frame
  pub accepted : List ℕ
  pub received : List ℕ

abbrev pub bytes_of : Option PollOutcome → List ℕ
bytes_of none = []
bytes_of (some (delivered b)) = b ∷ []
bytes_of (some PollOutcome.pending) = []
bytes_of (some PollOutcome.duplicate_ignored) = []
bytes_of (some PollOutcome.started) = []
bytes_of (some PollOutcome.transfer_finished) = []
bytes_of (some PollOutcome.rejected) = []
bytes_of (some PollOutcome.crc_rejected) = []
bytes_of (some PollOutcome.aborted) = []

abbrev pub put_back : {T : Type 0} → Link T → List Frame → Exchange T → Link T
put_back l rest x = record l {
  receiver = x.after;
  forward = rest;
  backward = l.backward ++ x.reply;
  received = l.received ++ bytes_of x.outcome;
}

-- `E` is the error type of the sender's transport.
pub data Step {T : Type 0} (E : Type 0) : Link T → Link T → Type 0 where
  offers :
      (l : Link T) (b : ℕ)
      → (offer {E = E} l.sender b).1 ≡ ok tt
      → Step E l
          (record l { sender = (offer {E = E} l.sender b).0; accepted = l.accepted ++ b ∷ [] })
  transmits :
      (l : Link T) (g : InFlight)
      → l.sender.inflight ≡ some g
      → g.waiting ≡ false
      → Step E l (record l {
        sender = transmit l.sender;
        forward = l.forward ++ frame_of g.kind g.seq ∷ [];
      })
  loses_forward :
      (l : Link T) (f : Frame) (rest : List Frame)
      → l.forward ≡ f ∷ rest
      → Step E l (record l { forward = rest })
  damages :
      (l : Link T) (f : Frame) (rest : List Frame) (e : FrameError)
      → l.forward ≡ f ∷ rest
      → Step E l (put_back l rest (receive_noise l.receiver e))
  receives :
      (l : Link T) (f : Frame) (rest : List Frame)
      → l.forward ≡ f ∷ rest
      → Step E l (put_back l rest (receive l.receiver f))
  loses_backward :
      (l : Link T) (f : Frame) (rest : List Frame)
      → l.backward ≡ f ∷ rest
      → Step E l (record l { backward = rest })
  hears :
      (l : Link T) (g : InFlight) (f : Frame) (rest : List Frame)
      → l.sender.inflight ≡ some g
      → g.waiting ≡ true
      → l.backward ≡ f ∷ rest
      → Step E l (record l { sender = (on_control {E = E} l.sender f).0; backward = rest })
  times_out :
      (l : Link T) (g : InFlight)
      → l.sender.inflight ≡ some g
      → g.waiting ≡ true
      → Step E l (record l { sender = (on_attempt_failed {E = E} l.sender).0 })

pub data Reach {T : Type 0} (E : Type 0) (l : Link T) : Link T → Type 0 where
  here : Reach E l l
  next : {m n : Link T} → Reach E l m → Step E m n → Reach E l n
