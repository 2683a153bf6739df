-- ===== src/Lib.antt =====
-- PSICOSE-1B, a link protocol of four-byte frames with one payload byte each.
--
-- The program's parts, from the wire up, and the modules that model them:
--
--   Protocol   src/protocol: the checksum (Protocol/Crc, crc.rs), the frame codec
--              (Protocol/Frame, frame.rs), the sequence counter (Protocol/Sequence,
--              sequence.rs), the frame that is being written (Protocol/OutBuf, outbuf.rs) and
--              the assembler of incoming bytes (Protocol/Assembler, assembler.rs).
--              Protocol/Bytes is `[u8; FRAME_LEN]`.
--   Error      src/error.rs, the error values of the state machines.
--   Timeout    src/timeout.rs, `RetryPolicy` and `IdleBudget`.
--   Transport  src/transport/traits.rs. The traits are records of functions; a state machine
--              takes one as a parameter, so what is proved holds for every port.
--   Tx         src/tx.rs, the stop-and-wait `Sender`: its record and small methods
--              (Tx/State), the offers (Tx/Offer), `poll` (Tx/Poll), the blocking calls
--              (Tx/Send); then its invariant (Tx/Valid), the meaning of each result
--              (Tx/Outcome) and the silent peer (Tx/Patience, Tx/Silence).
--   Rx         src/rx.rs, the stop-and-wait `Receiver`: handlers (Rx/State), `poll` (Rx/Poll),
--              invariant (Rx/Valid) and the meaning of each result (Rx/Delivery).
--   Link       a `Sender` and a `Receiver` in the DATA phase, joined by two channels that keep
--              the order and lose or damage frames. Link/Exchange puts the polls between two
--              frame boundaries together (a handler, then its reply written to the end);
--              Link/System is the step relation over `offer`, `on_control`,
--              `on_attempt_failed`, `handle_data` and the exchanges; Link/Phases
--              has the invariant, which Link/Sending and Link/Receiving follow through the steps.
--   Pump       src/pump.rs: the counters, and `Pump`, a sender and a receiver that are polled together,
--              in Pump/Poll; what a poll reports is in Pump/Events. `WindowedPump` is Window/Pump,
--              with Window/PumpEvents.
--   P2p        src/p2p. P2p/Peer is peer.rs, with the labels in P2p/Peer/Label; P2p/Config is the
--              first half of session.rs, capabilities and config, with the wire form and the
--              negotiation in P2p/Config/Laws; P2p/Session is the second half, `PeerSession`, with
--              the exchange of hellos in P2p/Session/Handshake; P2p/Table is table.rs, with the
--              room in the table in P2p/Table/Room, the search for clashes in P2p/Table/Unique and
--              the tables that the operations reach in P2p/Table/Steps.
--              P2p/Message, P2p/Fragmenter and P2p/Defragmenter are stream.rs, ids and header, cutting
--              and rebuilding; P2p/Defragmenter/Chunk follows one fragment and P2p/Fragments a whole
--              message.
--   Window     src/window. Window/Rx is rx.rs: state and handlers, with `poll` in Window/Rx/Poll, the
--              reorder buffer and the emission queue in Window/Rx/Order and Window/Rx/Drain, the
--              replies in Window/Rx/Delivery, the handlers in Window/Rx/Handlers, the frames that
--              come in in Window/Rx/Incoming, every poll in Window/Rx/InOrder and what it acknowledges
--              in Window/Rx/Acks. Window/Tx is tx.rs:
--              state, with the offers in Window/Tx/Offer, the replies and timeouts in
--              Window/Tx/Reply, `poll` in Window/Tx/Poll, the blocking calls in Window/Tx/Send; the
--              numbers in flight are in Window/Tx/Numbers and Window/Tx/Slots, and what keeps them
--              apart in Window/Tx/Valid, Window/Tx/Replies and Window/Tx/Safe.
--   Face       src/transport/face.rs: the rings (Face/Ring) and the queues that they stand for
--              (Face/Queue), the port that two ends share (Face/Port), where its frames go
--              (Face/Demux, Face/Routes), when a frame is held back (Face/Blocked), what an end reads
--              (Face/Ends) and the end of the loop (Face/Returns).
--   Half       src/transport/half.rs, the half-duplex line; Half/Flush follows its loop and
--              Half/Burst says what reaches its port.
--   Fault      src/fault.rs, the transport that drops and damages; Fault/Frames follows a frame.
--   Stream     src/stream.rs: the slices as source and sink, `send_all` and `drain_recv`; what they
--              count is in Stream/Slices.
--   Prelude    shared names, Boolean tests, lists, Rust's `Result`, laws of the bit operations.
--   Tests, WireTests, Protocol/Tests, P2p/Tests, P2p/MessageTests, Face/Tests, Window/Tests, Pump/Tests
--              the theorems at concrete inputs.
--
-- How state is modelled: a struct is a record, a method with `&mut self` returns the new
-- record beside its result, also where it fails, and `?` keeps the record as it was left. A
-- `u8`, `u16`, `u32` is a natural number with its wrap or saturation written out; that a value
-- is a byte is a hypothesis or a field of an invariant. An index past a fixed array reads 0 and
-- writes nothing where Rust panics; the invariants keep the indices inside.
--
-- Loops: the checksum and table loops recur on their list or counter. The blocking calls of
-- the sender recur on fuel, one unit for a poll, and give no answer when it runs out; the
-- theorem about a silent peer says how much is enough. The half-duplex line's loop recurs on fuel
-- too: a frame has four bytes and each round takes one, so `frame_len` rounds are enough.
-- The windowed receiver's loop that releases bytes takes at most as many rounds as the buffer has
-- places, since each round frees one. A face's loop recurs on fuel, a unit for a read of its port;
-- Face/Returns says how much is enough. A fragmenter is read out on fuel, a unit for a fragment: the
-- payload's length and one more are enough. The windowed sender's blocking calls recur on fuel as
-- those of the sender do.
-- The transfer loops of Stream recur on fuel, a unit for each byte or poll, and give no answer when
-- it runs out: how long a peer goes on sending is not bounded by the code.
--
-- What an application supplies, a transport or a direction pin, is a parameter. Where a theorem
-- relies on how it behaves, a record states it: `IsSilent` in Tx/Patience, `IsPort` in Half/Flush,
-- `IsReliable` in Fault/Frames; Tests and WireTests have a concrete one of each.
--
-- Not modelled: the windowed loops and the wrappers over slices of src/stream.rs, the loop
-- `send_all` of src/pump.rs, turns and pages (src/transport), the links, nodes and duplex channels of
-- src/p2p, and the actors (src/actors). `Display` texts are formatting only.
--
-- In the link's DATA phase START, FINISH and ABORT are not sent; loss is at the head of a
-- channel, which in a channel that keeps the order is no restriction; a damaged frame is one
-- whose window the receiver cannot decode.
pub mod Prelude
pub mod Protocol
pub mod Error
pub mod Timeout
pub mod Transport
pub mod Tx
pub mod Rx
pub mod Link
mod Tests
pub mod P2p
pub mod Pump
pub mod Half
pub mod Fault
pub mod Window
pub mod WireTests
pub mod Stream
pub mod Face
