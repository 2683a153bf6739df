-- ===== src/Face/Demux.antt =====
-- What the demultiplexer does with the bytes of its port: each decoded frame goes whole to one end.
use psicose.Prelude.{
  ℕ, zero, suc, ◌≡◌, refl, ap, sym, ◌∙◌, ◌⊎◌, inl, inr, List, [], ◌∷◌, ◌++◌, Bool, true, false,
  Option, none, some, if◌then◌else◌, Result, ok, err,
}
use mathlib.Core.List.{append-nil, append_assoc}
use psicose.Protocol.Bytes.{FrameBytes, to_list}
use psicose.Protocol.Frame.{Frame, FrameError}
use psicose.Protocol.Assembler.{FrameAssembler, push}
use psicose.Transport.{ByteTransport}
use psicose.Face.Ring.{Ring}
use psicose.Face.Queue.{IsRing, contents, push_frame-cases}
use psicose.Face.Port.{Held, FaceInner, held_of, store}

-- The bytes of a frame that belong to an end: `true` is that of the sender.
unfoldable pub belongs : Bool → Held → List ℕ
belongs true h = if h.control then to_list h.bytes else []
belongs false h = if h.control then [] else to_list h.bytes

unfoldable pub routed : Bool → List Held → List ℕ
routed side [] = []
routed side (h ∷ hs) = belongs side h ++ routed side hs

-- The frame that a full window gives.
abbrev pub completed : FrameAssembler → Option (Result Frame FrameError) → List Held
completed a none = []
completed a (some result) = held_of a result ∷ []

-- The frames that a run of bytes completes.
unfoldable pub demux : FrameAssembler → List ℕ → FrameAssembler × List Held
demux a [] = (a, [])
demux a (b ∷ bytes) =
    let (a', window) = push a b in
    let (a'', hs) = demux a' bytes in (a'', completed a' window ++ hs)

pub routed-append :
    (side : Bool) (hs hs' : List Held) → routed side (hs ++ hs') ≡ routed side hs ++ routed side hs'
unfolding routed
routed-append side [] hs' = refl
routed-append side (h ∷ hs) hs' =
    ap (λ x. belongs side h ++ x) (routed-append side hs hs')
    ∙ sym (append_assoc (belongs side h) (routed side hs) (routed side hs'))

-- What an answer of the port brings.
abbrev pub one : Option ℕ → List ℕ
one none = []
one (some byte) = byte ∷ []

abbrev pub brought : {E : Type 0} → Result (Option ℕ) E → List ℕ
brought (err e) = []
brought (ok o) = one o

-- A number of reads of the port, and the bytes that they bring.
unfoldable pub reads : {T E : Type 0} → ByteTransport T E → ℕ → T → T × List ℕ
reads io zero t = (t, [])
reads io (suc n) t =
    let (t', r) = io.read_byte t in let (t'', bytes) = reads io n t' in (t'', brought r ++ bytes)

-- The bytes of a frame that is held back.
abbrev pub held_back : Bool → Option Held → List ℕ
held_back side none = []
held_back side (some h) = belongs side h

pub both : (P : Bool → Type 0) → P true → P false → (side : Bool) → P side
both P t f true = t
both P t f false = f

module _ {T : Type 0} where
  abbrev pub ring_of : Bool → FaceInner T → Ring
  ring_of side g = if side then g.control else g.payload

  -- What waits for an end: its ring, then the frame that is held back for it.
  unfoldable pub queued : Bool → FaceInner T → List ℕ
  queued side g = contents (ring_of side g) ++ held_back side g.pending

  abbrev pub IsFace : FaceInner T → Type 0
  IsFace g = IsRing g.control × IsRing g.payload

  -- The two rings, and nothing else, may differ; each end has the bytes of `h` behind its own.
  pub record Stores (g : FaceInner T) (h : Held) (g' : FaceInner T) : Type 0 where
    pub same_port : g'.port ≡ g.port
    pub same_assembler : g'.assembler ≡ g.assembler
    pub same_pending : g'.pending ≡ g.pending
    pub valid : IsFace g'
    pub behind :
        (side : Bool) → contents (ring_of side g') ≡ contents (ring_of side g) ++ belongs side h

  store_of :
      (g : FaceInner T) (bytes : FrameBytes) (control : Bool)
      → IsFace g
      → let h : Held = record { bytes = bytes; control = control } in
        (((store g h).1 ≡ true) × Stores g h (store g h).0) ⊎ (store g h ≡ (g, false))
  unfolding store belongs
  store_of g bytes true (vc, vp) = elim (push_frame-cases g.control bytes vc) [
    | inl (fits, vc', more) ↦ inl (
      fits,
      record {
        same_port = refl;
        same_assembler = refl;
        same_pending = refl;
        valid = (vc', vp);
        behind = both _ (more) (sym (append-nil (contents g.payload)));
      },
    )
    | inr full ↦ inr (ap (λ x. (record g { control = x.0 }, x.1)) full)
  ]
  store_of g bytes false (vc, vp) = elim (push_frame-cases g.payload bytes vp) [
    | inl (fits, vp', more) ↦ inl (
      fits,
      record {
        same_port = refl;
        same_assembler = refl;
        same_pending = refl;
        valid = (vc, vp');
        behind = both _ (sym (append-nil (contents g.control))) (more);
      },
    )
    | inr full ↦ inr (ap (λ x. (record g { payload = x.0 }, x.1)) full)
  ]

  -- A frame that is stored goes behind the bytes of its end, and one that is not changes nothing.
  pub store-Stores :
      (g : FaceInner T) (h : Held)
      → IsFace g
      → (((store g h).1 ≡ true) × Stores g h (store g h).0) ⊎ (store g h ≡ (g, false))
  store-Stores g h v = store_of g h.bytes h.control v
