-- ===== src/Lib.antt =====
-- Verification library of the BCNP protocol library.
--
-- The program is a small message protocol for robots. A sender packs typed messages into a packet
-- with a header and a CRC-32 checksum; a receiver finds the packets in its bytes, decodes them, and
-- runs the messages one after the other from a timed queue. The parts build on each other in this
-- order, one file (with its folder) for each:
--
-- - Base: Boolean tests, lists, words and bit laws, and `window`, what a ring buffer holds.
-- - Wire: `detail::LoadU16` to `StoreU32` of generated/bcnp/message_types.h.
-- - Crc: `MakeCrcTable` and `ComputeCrc32` of src/bcnp/packet.cpp. Crc/Reference has the checksum bit
--   by bit, Crc/Detect the distance of the code.
-- - Message: `MessageInfo` and `GetMessageInfo`, and the contract `IsCodec` of a generated struct, that
--   the packet layer takes as a parameter. Message/Structs has two structs of
--   tests/generated/bcnp/message_types.h, and Message/Laws is about that contract for them.
-- - Packet: src/bcnp/packet.h and packet.cpp. `decode_packet_view_with_size` is
--   `DecodePacketViewWithSize`, `encode_typed_packet` is `EncodeTypedPacket`, `decode_typed_packet` is
--   `DecodeTypedPacket`; Packet/Iterator has `MessageIterator`. Packet/Frame has the wire format that
--   both sides are measured by.
-- - Handshake: the handshake functions of generated/bcnp/message_types.h.
-- - Queue: `MessageQueue` of src/bcnp/message_queue.h. Queue/Update has `PromoteNext` and `Update`,
--   Queue/Schedule what they promise over the plain list of the waiting messages.
-- - Parser: `StreamParser` of src/bcnp/stream_parser.h and stream_parser.cpp. Parser/Loop has
--   `ParseBuffer` and `Push`; a callback is an entry of a list of events. The other files show the
--   ring as a list (Ring), what a run takes from it (Account), how a push ends (Total), the way of a
--   packet through it (Rounds, Deliver, Stream), of a part of a packet (Sendable, Wait), and of packets
--   that come in pieces (Push, Split, Chunks).
-- - Dispatcher: `PacketDispatcher` of src/bcnp/dispatcher.h and dispatcher.cpp, over the parser. The
--   handlers change a value of a type that is a parameter.
-- - Transport: the interface of an adapter, src/bcnp/transport/adapter.h.
-- - Driver: `DispatcherDriver` of src/bcnp/transport/controller_driver.h and controller_driver.cpp, which
--   takes an adapter and a dispatcher. Spi: `SpiStreamAdapter` of src/bcnp/spi_adapter.h and
--   spi_adapter.cpp.
-- - Udp: `UdpPosixAdapter` of src/bcnp/transport/udp_posix.h and udp_posix.cpp, whose operations take the
--   answers of the system calls as arguments.
-- - Storage: the containers of src/bcnp/packet_storage.h and static_vector.h. The vector of crablib
--   under `StaticVector` is a parameter (Storage/Inner), and `StaticVector` (Storage/Vector) is one
--   instance of the interface `Storage`.
-- - Telemetry: `TelemetryAccumulator` of src/bcnp/telemetry_accumulator.h, over that interface and that
--   of an adapter.
-- - Tcp: `TcpPosixAdapter` of src/bcnp/transport/tcp_posix.h and tcp_posix.cpp. Tcp/Ring has the
--   transmit ring, Tcp/Connection what opens, polls, flushes and loses a connection, Tcp/Session the
--   calls and the handshake; the answers of the system calls are arguments, and a log of events is kept
--   beside the state. Tcp/Invariant lists the few ways in which the adapter changes, and shows once that
--   every operation is made of them; Tcp/Stream, Tcp/Descriptors and Tcp/Peer are invariants on them.
--   Tcp/Delivery and Tcp/Packets put two adapters and the parser together.
-- - Jni: the native functions of java/src/main/cpp/bcnp_jni.cpp over packet and parser.
-- - Tests: runs, and every theorem at a concrete input.
--
-- Bytes and words are natural numbers below 256 and 2 ^ w; arithmetic that can wrap is written with
-- the modulus (u8, u16, u32, u64). Sums of indices into a vector are not, since a vector has fewer
-- than 2 ^ 63 elements. A time point is the number of nanoseconds since `time_point::min()`, and the
-- clock is taken to be further from both ends of its range than any duration added to it. A pointer
-- with a length is a list of bytes with a length. Udp counts its time from the epoch of the clock.
--
-- Fuel: the loop of `PromoteNext` runs on as many rounds as messages wait. The loop of `Update` runs
-- on two rounds more than that: a round that goes on has taken a message of the queue.
-- The loop of `ParseBuffer` runs on its own budget, and the loop of `Push` on as many rounds as there
-- are bytes: a round that goes on has written a byte to the ring.
-- The poll of the bus runs on fuel, and one round more than the bus gives chunks is enough.
-- The answers of `send` in one flush are a finite list that ends with one that ends the loop, and those
-- of `recv` end with one that is not EINTR: a flush with as many answers that take something as there
-- are bytes is enough to empty the ring. A kernel that interrupts for ever is outside. The capacity of
-- the transmit ring is an argument of the constructor; the program's is 65536 * 8.
--
-- Not modelled: the float messages (QuantizeFloat). The operating system, the mutexes (each method is
-- one step), the Java virtual machine, crablib and the code generator are not code of these files. The
-- Java side of the binding, the examples and the tests are outside.
pub mod Base
pub mod Wire
pub mod Crc
pub mod Message
pub mod Packet
pub mod Handshake
pub mod Queue
pub mod Parser
pub mod Dispatcher
pub mod Transport
pub mod Storage
pub mod Telemetry
pub mod Driver
pub mod Spi
pub mod Udp
pub mod Tcp
pub mod Jni
pub mod Tests
