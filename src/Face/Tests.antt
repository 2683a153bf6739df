-- ===== src/Face/Tests.antt =====
-- A face at concrete inputs.
use psicose.Prelude.{ℕ, List, [], ◌∷◌, refl, ◌≡◌, ◌≢◌, none, some, ok, Option, Result}
use psicose.Transport.{ByteTransport}
use psicose.Face.Ring
use psicose.Face.Queue.{new-IsRing, contents, Op, takes, stores, run, run_queue, run-refines}
use psicose.Face.Port.{new, ingest}
use psicose.Face.Demux.{reads}
use psicose.Face.Returns.{IsDryAfter, ingest-ends}

-- A port that gives the bytes of a list.
abbrev next_byte : List ℕ → List ℕ × Result (Option ℕ) (Unit {0})
next_byte [] = ([], ok none)
next_byte (b ∷ bytes) = (bytes, ok (some b))

abbrev list_port : ByteTransport (List ℕ) (Unit {0})
list_port = record { write_byte = λ t b. (t, ok tt); read_byte = next_byte }

-- The ACK of byte 0, and then the first bytes of a frame.
abbrev an_ack : List ℕ
an_ack = 2 ∷ 0 ∷ 0 ∷ 0x2a ∷ 1 ∷ 0 ∷ []

abbrev two_calls : List Op
two_calls = stores (record { b0 = 1; b1 = 2; b2 = 3; b3 = 4 }) ∷ takes ∷ takes ∷ []

run-refines_example : run Ring.new two_calls ≡ run_queue (contents Ring.new) two_calls
run-refines_example = run-refines two_calls Ring.new new-IsRing

an_ack-IsDryAfter : IsDryAfter list_port 6 (new an_ack).port
unfolding IsDryAfter new reads
an_ack-IsDryAfter = refl

ingest-ends_example : (ingest list_port 7 (new an_ack)).1 ≢ none
ingest-ends_example = ingest-ends list_port 6 (new an_ack) an_ack-IsDryAfter
