-- ===== src/Face/Blocked.antt =====
-- A frame is held back only behind a full ring, so that the byte at the front of an end's ring is
-- the first of all that waits for the end.
use psicose.Prelude.{
  ℕ, zero, suc, ◌<◌, ◌≡◌, refl, ap, sym, ◌∙◌, inl, inr, arith, List, [], ◌∷◌, ◌++◌, Bool, true,
  false, Option, none, some, Result, ok, err, Bool-cases, subst, length,
}
use psicose.Protocol.Bytes.{FrameBytes}
use psicose.Protocol.Frame.{Frame, FrameError}
use psicose.Protocol.Assembler.{push}
use psicose.Transport.{ByteTransport}
use psicose.Face.Ring.{push_frame}
use psicose.Face.Queue.{contents, length-contents, take_byte}
use psicose.Face.Port.{
  Held, FaceInner, Ended, held_of, store, keep, on_window, on_answer, read_on, on_pending, ingest,
}
use psicose.Face.Demux.{belongs, held_back, ring_of, queued}

module _ {T : Type 0} where
  -- The ring of a frame that is held back has no room for it.
  abbrev pub Behind : FaceInner T → Option Held → Type 0
  Behind g none = Unit {0}
  Behind g (some h) = 60 < (ring_of h.control g).len

  abbrev pub IsBlocked : FaceInner T → Type 0
  IsBlocked g = Behind g g.pending

  clear-IsBlocked : (g : FaceInner T) → g.pending ≡ none → IsBlocked g
  clear-IsBlocked g p = subst (Behind g) (sym p) tt

  store-pending : (g : FaceInner T) (h : Held) → (store g h).0.pending ≡ g.pending
  unfolding store
  store-pending g h = elim (Bool-cases h.control) [
    | inl e ↦ rw (e, store) refl
    | inr e ↦ rw (e, store) refl
  ]

  store-full :
      (g : FaceInner T) (bytes : FrameBytes) (control : Bool)
      → (store g (record { bytes = bytes; control = control })).1 ≡ false
      → 60 < (ring_of control (store g (record { bytes = bytes; control = control })).0).len
  unfolding store push_frame
  store-full g bytes true e = ground arith
  store-full g bytes false e = ground arith

  belongs-empty :
      (side : Bool) (g : FaceInner T) (bytes : FrameBytes) (control : Bool)
      → 60 < (ring_of control g).len
      → contents (ring_of side g) ≡ []
      → belongs side (record { bytes = bytes; control = control }) ≡ []
  unfolding belongs
  belongs-empty true g bytes true full e =
      absurd (omega (arith, length-contents g.control.buf g.control.head g.control.len, nil e))
    where
      nil : contents g.control ≡ [] → length (contents g.control) ≡ 0
      nil e = ap length e
  belongs-empty false g bytes false full e =
      absurd (omega (arith, length-contents g.payload.buf g.payload.head g.payload.len, nil e))
    where
      nil : contents g.payload ≡ [] → length (contents g.payload) ≡ 0
      nil e = ap length e
  belongs-empty true g bytes false full e = refl
  belongs-empty false g bytes true full e = refl

  held_back-empty :
      (side : Bool) (g : FaceInner T) (o : Option Held)
      → Behind g o
      → contents (ring_of side g) ≡ []
      → held_back side o ≡ []
  held_back-empty side g none b e = refl
  held_back-empty side g (some h) b e = belongs-empty side g h.bytes h.control b e

first_of : (xs ys : List ℕ) → (xs ≡ [] → ys ≡ []) → (take_byte (xs ++ ys)).1 ≡ (take_byte xs).1
unfolding take_byte
first_of [] ys h = rw (h refl) refl
first_of (x ∷ xs) ys h = refl

-- What waits for an end starts with the front of its ring.
pub queued-first :
    {T : Type 0} (side : Bool) (g : FaceInner T)
    → IsBlocked g
    → (take_byte (queued side g)).1 ≡ (take_byte (contents (ring_of side g))).1
unfolding queued
queued-first side g b = first_of _ _ (held_back-empty side g g.pending b)

module _ {T E : Type 0} (io : ByteTransport T E) where
  -- From a state that holds nothing back.
  abbrev Blocks : (FaceInner T → Ended io) → Type 0
  Blocks more = (g : FaceInner T) → g.pending ≡ none → IsBlocked (more g).0

  keep-IsBlocked :
      (more : FaceInner T → Ended io) (g : FaceInner T) (h : Held)
      → Blocks more
      → g.pending ≡ none
      → IsBlocked (keep io more g h).0
  unfolding keep
  keep-IsBlocked more g h blocks p = elim (Bool-cases (store g h).1) [
    | inl e ↦ rw (e, keep) (blocks (store g h).0 (store-pending g h ∙ p))
    | inr e ↦ rw (e, keep) (store-full g h.bytes h.control e)
  ]

  on_window-IsBlocked :
      (more : FaceInner T → Ended io) (g : FaceInner T) (w : Option (Result Frame FrameError))
      → Blocks more
      → g.pending ≡ none
      → IsBlocked (on_window io more g w).0
  unfolding on_window
  on_window-IsBlocked more g none blocks p = blocks g p
  on_window-IsBlocked more g (some r) blocks p =
      keep-IsBlocked more g (held_of g.assembler r) blocks p

  on_answer-IsBlocked :
      (more : FaceInner T → Ended io) (g : FaceInner T) (r : Result (Option ℕ) E)
      → Blocks more
      → g.pending ≡ none
      → IsBlocked (on_answer io more g r).0
  unfolding on_answer
  on_answer-IsBlocked more g (err e) blocks p = clear-IsBlocked g p
  on_answer-IsBlocked more g (ok none) blocks p = clear-IsBlocked g p
  on_answer-IsBlocked more g (ok (some b)) blocks p =
      let (a, w) = push g.assembler b in
      on_window-IsBlocked more (record g { assembler = a }) w blocks p

  read_on-IsBlocked : (fuel : ℕ) → Blocks (read_on io fuel)
  unfolding read_on
  read_on-IsBlocked zero g p = clear-IsBlocked g p
  read_on-IsBlocked (suc fuel) g p =
      let (t, r) = io.read_byte g.port in
      on_answer-IsBlocked (read_on io fuel) (record g { port = t }) r (read_on-IsBlocked fuel) p

  on_pending-IsBlocked :
      (fuel : ℕ) (g : FaceInner T) (o : Option Held)
      → g.pending ≡ o
      → IsBlocked (on_pending io fuel g o).0
  unfolding on_pending
  on_pending-IsBlocked fuel g none p = read_on-IsBlocked fuel g p
  on_pending-IsBlocked fuel g (some h) p = elim (Bool-cases (store g h).1) [
    | inl e ↦
        rw (e, on_pending) (read_on-IsBlocked fuel (record (store g h).0 { pending = none }) refl)
    | inr e ↦
        rw (e, on_pending)
          (subst (Behind (store g h).0) (sym (store-pending g h ∙ p))
            (store-full g h.bytes h.control e))
  ]

  -- However it ends, `ingest` holds a frame back only behind a ring without room for it.
  pub ingest-IsBlocked : (fuel : ℕ) (g : FaceInner T) → IsBlocked (ingest io fuel g).0
  unfolding ingest
  ingest-IsBlocked fuel g = on_pending-IsBlocked fuel g g.pending refl
