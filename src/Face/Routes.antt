-- ===== src/Face/Routes.antt =====
-- What `ingest` does with the bytes of its port: each frame goes whole to one end, in order.
use psicose.Prelude.{
  ℕ, zero, suc, ◌≡◌, refl, ap, ap₂, sym, ◌∙◌, inl, inr, List, [], ◌∷◌, ◌++◌, Bool, true, false,
  Option, none, some, Result, ok, Result-cases,
}
use mathlib.Core.List.{append-nil, append_assoc}
use psicose.Protocol.Frame.{Frame, FrameError}
use psicose.Protocol.Assembler.{push}
use psicose.Transport.{ByteTransport}
use psicose.Face.Queue.{contents}
use psicose.Face.Port.{
  Held, FaceInner, FaceError, held_of, store, keep, on_window, on_answer, read_on, on_pending,
  ingest,
}
use psicose.Face.Demux.{
  belongs, routed, routed-append, completed, demux, brought, reads, held_back, both, ring_of,
  queued, IsFace, store-Stores,
}

-- What came of a number of reads: the port stands behind them, and each end has the frames that
-- their bytes complete behind what waited for it.
pub record Routes {T E : Type 0} (io : ByteTransport T E) (g g' : FaceInner T) : Type 0 where
  pub count : ℕ
  pub port_at : g'.port ≡ (reads io count g.port).0
  pub assembled : g'.assembler ≡ (demux g.assembler (reads io count g.port).1).0
  pub each_end :
      (side : Bool)
      → queued side g'
        ≡ queued side g ++ routed side (demux g.assembler (reads io count g.port).1).1

module _ {T E : Type 0} (io : ByteTransport T E) where
  -- No reads.
  Routes-refl : (g : FaceInner T) → Routes io g g
  unfolding reads demux routed
  Routes-refl g = record {
    count = 0;
    port_at = refl;
    assembled = refl;
    each_end = λ side. sym (append-nil (queued side g));
  }

  -- A read that brings no byte.
  Routes-quiet :
      (g : FaceInner T)
      → brought (io.read_byte g.port).1 ≡ []
      → Routes io g (record g { port = (io.read_byte g.port).0 })
  unfolding reads demux routed queued
  Routes-quiet g e = record {
    count = 1;
    port_at = refl;
    assembled = rw e refl;
    each_end =
        both _ (rw e (sym (append-nil (queued true g)))) (rw e (sym (append-nil (queued false g))));
  }

  -- A read that brings one, in front of others.
  Routes-byte :
      (g g1 g' : FaceInner T) (byte : ℕ)
      → (io.read_byte g.port).1 ≡ ok (some byte)
      → g1.port ≡ (io.read_byte g.port).0
      → g1.assembler ≡ (push g.assembler byte).0
      → ((side : Bool)
          → queued side g1
            ≡ queued side g
              ++ routed side (completed (push g.assembler byte).0 (push g.assembler byte).1))
      → Routes io g1 g'
      → Routes io g g'
  unfolding reads demux
  Routes-byte g g1 g' byte e ep ea eq r =
      let behind = (reads io r.count (io.read_byte g.port).0).1 in
      let same : (reads io r.count g1.port).1 ≡ behind = ap (λ t. (reads io r.count t).1) ep in
      record {
        count = suc r.count;
        port_at = r.port_at ∙ ap (λ t. (reads io r.count t).0) ep;
        assembled = rw e (r.assembled ∙ ap₂ (λ a bs. (demux a bs).0) ea same);
        each_end = λ side. rw e (
            r.each_end side
            ∙ ap₂ (λ xs ys. xs ++ ys) (eq side) (ap₂ (λ a bs. routed side (demux a bs).1) ea same)
            ∙ append_assoc (queued side g) _ _
            ∙ ap (λ xs. queued side g ++ xs) (sym (routed-append side _ _)));
      }

  -- Frames go behind what waited for their ends, and then come reads.
  record Behind (g : FaceInner T) (hs : List Held) (g' : FaceInner T) : Type 0 where
    after : FaceInner T
    same_port : after.port ≡ g.port
    same_assembler : after.assembler ≡ g.assembler
    added : (side : Bool) → queued side after ≡ queued side g ++ routed side hs
    valid : IsFace g'
    routes : Routes io after g'

  abbrev Goes : (FaceInner T → FaceInner T × Option (Result (Unit {0}) (FaceError E))) → Type 0
  Goes more =
      (g : FaceInner T) → IsFace g → g.pending ≡ none → IsFace (more g).0 × Routes io g (more g).0

  module _ (more : FaceInner T → FaceInner T × Option (Result (Unit {0}) (FaceError E)))
      (goes : Goes more) where
    keep-Behind :
        (g : FaceInner T) (h : Held)
        → IsFace g
        → g.pending ≡ none
        → Behind g (h ∷ []) (keep io more g h).0
    unfolding keep queued routed
    keep-Behind g h v p =
        let spread : (side : Bool)
            → contents (ring_of side g) ++ belongs side h ≡ queued side g ++ routed side (h ∷ []) =
          λ side.
            ap₂ (λ xs ys. xs ++ ys)
              (sym (append-nil _) ∙ ap (λ x. contents (ring_of side g) ++ held_back side x) (sym p))
              (sym (append-nil _)) in
        elim (store-Stores g h v) [
          | inl (fits, stores) ↦
              let (v', routes) = goes (store g h).0 stores.valid (stores.same_pending ∙ p) in
              rw (fits, keep)
                (record {
                  after = (store g h).0;
                  same_port = stores.same_port;
                  same_assembler = stores.same_assembler;
                  added = λ side.
                      ap (λ x. contents (ring_of side (store g h).0) ++ held_back side x)
                        (stores.same_pending ∙ p)
                      ∙ append-nil _
                      ∙ stores.behind side
                      ∙ spread side;
                  valid = v';
                  routes = routes;
                })
          | inr full ↦
              let whole : (store g h).0 ≡ g = ap (λ x. x.0) full in
              rw (full, keep)
                (rw whole (record {
                  after = record g { pending = some h };
                  same_port = refl;
                  same_assembler = refl;
                  added = λ side. spread side;
                  valid = v;
                  routes = Routes-refl _;
                }))
        ]

    on_window-Behind :
        (g : FaceInner T) (w : Option (Result Frame FrameError))
        → IsFace g
        → g.pending ≡ none
        → Behind g (completed g.assembler w) (on_window io more g w).0
    unfolding on_window routed
    on_window-Behind g none v p =
        let (v', routes) = goes g v p in
        record {
          after = g;
          same_port = refl;
          same_assembler = refl;
          added = λ side. sym (append-nil (queued side g));
          valid = v';
          routes = routes;
        }
    on_window-Behind g (some r) v p = keep-Behind g (held_of g.assembler r) v p

    on_answer-Routes :
        (g : FaceInner T)
        → IsFace g
        → g.pending ≡ none
        → let t = (io.read_byte g.port).0 in
          let r = (io.read_byte g.port).1 in
          let g' = (on_answer io more (record g { port = t }) r).0 in IsFace g' × Routes io g g'
    unfolding on_answer queued
    on_answer-Routes g v p = elim (Result-cases (io.read_byte g.port).1) [
      | inr (e, eq) ↦
          let quiet : Routes io g _ = Routes-quiet g (rw eq refl) in rw (eq, on_answer) (v, quiet)
      | inl (none, eq) ↦
          let quiet : Routes io g _ = Routes-quiet g (rw eq refl) in rw (eq, on_answer) (v, quiet)
      | inl (some byte, eq) ↦
          let (a, w) = push g.assembler byte in
          let t = (io.read_byte g.port).0 in
          let b = on_window-Behind (record g { port = t; assembler = a }) w v p in
          let all = Routes-byte g b.after _ byte eq b.same_port b.same_assembler b.added b.routes in
          rw (eq, on_answer) (b.valid, all)
    ]

  -- The loop, from a state that holds nothing back.
  read_on-Routes :
      (fuel : ℕ) (g : FaceInner T)
      → IsFace g
      → g.pending ≡ none
      → IsFace (read_on io fuel g).0 × Routes io g (read_on io fuel g).0
  unfolding read_on
  read_on-Routes zero g v p = (v, Routes-refl g)
  read_on-Routes (suc fuel) g v p = on_answer-Routes (read_on io fuel) (read_on-Routes fuel) g v p

  -- The same ends and port by other means.
  Routes-from :
      (g g1 g' : FaceInner T)
      → g1.port ≡ g.port
      → g1.assembler ≡ g.assembler
      → ((side : Bool) → queued side g1 ≡ queued side g)
      → Routes io g1 g'
      → Routes io g g'
  Routes-from g g1 g' ep ea eq r =
      let same : (reads io r.count g1.port).1 ≡ (reads io r.count g.port).1 =
        ap (λ t. (reads io r.count t).1) ep in
      record {
        count = r.count;
        port_at = r.port_at ∙ ap (λ t. (reads io r.count t).0) ep;
        assembled = r.assembled ∙ ap₂ (λ a bs. (demux a bs).0) ea same;
        each_end = λ side.
            r.each_end side
            ∙ ap₂ (λ xs ys. xs ++ ys) (eq side) (ap₂ (λ a bs. routed side (demux a bs).1) ea same);
      }

  on_pending-Routes :
      (fuel : ℕ) (g : FaceInner T) (o : Option Held)
      → IsFace g
      → g.pending ≡ o
      → IsFace (on_pending io fuel g o).0 × Routes io g (on_pending io fuel g o).0
  unfolding on_pending queued
  on_pending-Routes fuel g none v p = read_on-Routes fuel g v p
  on_pending-Routes fuel g (some h) v p = elim (store-Stores g h v) [
    | inl (fits, stores) ↦
        let g1 : FaceInner T = record (store g h).0 { pending = none } in
        let (v', routes) = read_on-Routes fuel g1 stores.valid refl in
        let added : (side : Bool) → queued side g1 ≡ queued side g = λ side.
          append-nil _
          ∙ stores.behind side
          ∙ ap (λ x. contents (ring_of side g) ++ held_back side x) (sym p) in
        let all : Routes io g (read_on io fuel g1).0 =
          Routes-from g g1 _ stores.same_port stores.same_assembler added routes in
        rw (fits, on_pending) (v', all)
    | inr full ↦
        let whole : (store g h).0 ≡ g = ap (λ x. x.0) full in
        let fits : (store g h).1 ≡ false = ap (λ x. x.1) full in
        rw (fits, on_pending) (rw whole (v, Routes-refl g))
  ]

  -- `ingest` keeps the rings' indices, and what it reads from the port goes, frame by frame and
  -- whole, behind what waited for the frame's own end: ACK and NACK to the sender's, any other
  -- frame and each window that does not decode to the receiver's. No byte of a frame is lost,
  -- torn or put before another, also when a ring is full and a frame is held back.
  pub ingest-Routes :
      (fuel : ℕ) (g : FaceInner T)
      → IsFace g
      → IsFace (ingest io fuel g).0 × Routes io g (ingest io fuel g).0
  unfolding ingest
  ingest-Routes fuel g v = on_pending-Routes fuel g g.pending v refl
