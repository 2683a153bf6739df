-- ===== src/Face/Ends.antt =====
-- What the two ends of a face read, and that a read returns.
use psicose.Prelude.{
  ℕ, ◌≡◌, ◌≢◌, ap, sym, ◌∙◌, List, [], ◌++◌, Bool, Option, none, some, Result, ok, err,
}
use psicose.Transport.{ByteTransport}
use psicose.Face.Ring.{Ring, pop}
use psicose.Face.Queue.{IsRing, take_byte, pop-refines}
use psicose.Face.Port.{FaceInner, FaceError, ingest}
use psicose.Face.Demux.{IsFace, reads, brought, demux, routed, queued, ring_of}
use psicose.Face.Routes.{Routes}
use psicose.Face.Blocked.{queued-first, ingest-IsBlocked}

-- The bytes that an end's read took.
abbrev taken : {E : Type 0} → Option (Result (Option ℕ) E) → List ℕ
taken none = []
taken (some r) = brought r

-- What a read answers after an `ingest` that ended with `ended`, where these bytes wait for it.
abbrev pub answer :
    {E : Type 0} → Option (Result (Unit {0}) E) → List ℕ → Option (Result (Option ℕ) E)
answer none waiting = none
answer (some (err e)) waiting = some (err e)
answer (some (ok u)) waiting = some (ok (take_byte waiting).1)

-- What a read of the end `side` did, where its `ingest` ended with `ended`: for some number of reads
-- of the port, it answered with the first of the bytes that wait for the end, these are the byte
-- that it answered with and those that still wait, and the other end has only grown.
pub record Reads {T E : Type 0} (io : ByteTransport T E) (side : Bool)
    (ended : Option (Result (Unit {0}) (FaceError E))) (g g' : FaceInner T)
    (got : Option (Result (Option ℕ) (FaceError E))) : Type 0 where
  pub valid : IsFace g'
  pub count : ℕ
  pub port_at : g'.port ≡ (reads io count g.port).0
  pub answered :
      got
      ≡ answer ended (queued side g ++ routed side (demux g.assembler (reads io count g.port).1).1)
  pub in_front :
      taken got ++ queued side g'
      ≡ queued side g ++ routed side (demux g.assembler (reads io count g.port).1).1
  pub other_end :
      (other : Bool)
      → other ≢ side
      → queued other g'
        ≡ queued other g ++ routed other (demux g.assembler (reads io count g.port).1).1

module _ {T E : Type 0} (io : ByteTransport T E) where
  -- The front of an end's ring after `ingest` is the first byte that waits for it.
  first :
      (side : Bool) (fuel : ℕ) (g : FaceInner T)
      → IsRing (ring_of side (ingest io fuel g).0)
      → (pop (ring_of side (ingest io fuel g).0)).1
        ≡ (take_byte (queued side (ingest io fuel g).0)).1
  first side fuel g v =
      ap (λ x. x.1) (pop-refines (ring_of side (ingest io fuel g).0) v).1
      ∙ sym (queued-first side (ingest io fuel g).0 (ingest-IsBlocked io fuel g))
