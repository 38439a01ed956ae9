-- ===== src/Lib.antt =====
-- mini_dds: a small DDS and RTPS implementation in C++. This library models its serialization, its
-- RTPS messages, its histories, its reliable and best-effort endpoints, the message router of a
-- participant, the identifiers of its entities and two parts of its discovery.
--
-- How the parts interact. A writer adds a payload to its history, wraps the change into a DATA
-- submessage behind a message header, both written by the CDR codec, and hands the bytes to a
-- transport. A reader takes a datagram from a transport, decodes the headers and the submessage, and
-- adds the change to its history, from which the application takes it. The reliable reader keeps a
-- state for each writer: DATA, HEARTBEAT and GAP change it, what has become contiguous goes to the
-- history, and an ACKNACK answers. The reliable writer sends a change with a HEARTBEAT to each of its
-- readers, again when a deadline passes or an ACKNACK asks for it, until all have acknowledged it or
-- the retries are spent; an asynchronous one has a worker that takes the changes from a queue. The
-- router gives the endpoints of a participant one transport: it finds the target of a datagram and
-- appends it to the channels of the endpoints that it is for. Discovery finds its ports by the port
-- mapping and writes its announcements as parameter lists.
--
-- Which file models which part:
--   Cdr (Writer, Reader): CdrWriter and CdrReader of src/serialization/Cdr.cpp, each operation under
--     its name; below it the rules by which a sequence of writes is read back. Cdr/Payload:
--     src/serialization/SerializedPayload.cpp.
--   Rtps/Types, Rtps/Message, Rtps/SubmessageKind: include/mini_dds/rtps/Types.h and Message.h, and
--     src/rtps/Message.cpp.
--   Rtps/Codec, Rtps/Data: src/rtps/Data.cpp. Rtps/Checked, Rtps/Reliability:
--     src/rtps/Reliability.cpp, with what its encoders and decoders share in Reliability/Frame.
--   Rtps/Reader: ReliableReader of src/rtps/ReliableEndpoint.cpp. State holds WriterState and what
--     the three branches of `receive_once` do to it, Commit `commit_contiguous`, Acks the set that
--     `send_acknack` builds, Sets the operations on std::set and std::map, Receive the handlers as a
--     whole.
--   Rtps/Writer: ReliableWriter of the same file. Acknowledge holds its helpers on ACKNACKs, Send
--     `send_change` and `send_heartbeat`, Round one round of the loop of `deliver_change`, Deliver
--     the loop, Queue `write`, `worker_loop` and `wait_for_acknowledgments`; Queue/Steps says how the
--     threads interleave. Writer.Surroundings is the transport, the clock and the stop flag, each a
--     parameter.
--   Rtps/Router: src/rtps/ParticipantMessageRouter.cpp. Target holds `route_target`, Dispatch
--     `receive_loop`, Endpoints RoutedTransport, Steps the interleaving of the threads.
--   Rtps/Stateless: src/rtps/StatelessEndpoint.cpp. Rtps/Outcome: what a receive reports.
--   History: src/history/History.cpp. Transport: include/mini_dds/transport/ITransport.h;
--     Transport/Recorder keeps the datagrams that have been received.
--   Discovery/PortMapping, Discovery/ParameterList: the files of that name in src/discovery.
--   Dds: the identifiers of entities in src/dds/DomainParticipant.cpp.
--   Prelude: the names and lemmas that the others share. Tests: the theorems at concrete inputs.
--
-- How the code is modelled. Bytes, arrays, vectors and strings are lists of numbers. A signed
-- integer is its bit pattern, and a comparison of two of them says so (slt64, sle64, sle32). A
-- method that changes its object takes and returns the object; one that runs under a mutex is one
-- step. A failure is a value of Result with one constructor for each error text; what an out
-- parameter holds after a failure is not modelled. The endpoints take the transport as a parameter,
-- a record of operations on a state of its own.
--
-- Fuel. `commit_loop` runs on the number of entries it can erase and one round more: each round but
-- the last erases one. `decode_parameters` runs on the length of the payload, of which each round
-- takes four bytes. `deliver_loop` runs on rounds, of which `enough_rounds` has enough where the clock
-- is steady and a receive takes a tick at least: every round that does not end the delivery costs each
-- waiting reader a tick of its timeout or one of its retries. Every other loop is a recursion on its
-- data or on its count.
--
-- Not modelled: the sockets of UDPTransport, the discovery service and its announcements, and the DDS
-- layer but for its identifiers: the rest of it are templates that wire the other parts together.
-- Threads are not modelled as such: where their order matters, a relation says which steps they may
-- take.
pub mod Prelude
pub mod Cdr
pub mod Rtps
pub mod History
pub mod Transport
pub mod Discovery
pub mod Dds
pub mod Tests
