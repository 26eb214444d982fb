-- ===== src/Lib.antt =====
-- HaierProtocol: the library that speaks the Haier appliance protocol over a byte stream.
--
-- The library has five parts, each on top of the one before:
--   a ring of bytes, `CircularBuffer`, which holds what was read and not yet understood;
--   a frame, `HaierFrame`: its type, its data, a byte sum and an optional CRC, written to a buffer
--     with a post byte 0x55 behind each 0xFF that is not a separator, and parsed from one;
--   the transport, `TransportLevelHandler`: `read_data` moves bytes from a `ProtocolStream` into the
--     ring, `process_data` finds frames in the ring and queues them, `send_data` writes a frame;
--   a message, `HaierMessage`: a frame type, a subcommand and data;
--   the protocol, `ProtocolHandler`: `loop` reads, scans and takes one step of a state machine that
--     sends the requests in its queue one by one, waits for the answer to each or for its timeout,
--     and calls the client's handlers.
-- Beside them stand the log, which turns bytes into text, and under tools/ two simulated appliances
-- that are clients of the protocol: one for the hOn variant, one for SmartAir2.
--
-- Which file is about which code:
--   Prelude: tests, lists and machine words that the other files share.
--   Circular: include/utils/circular_buffer.h. The record has the class's members, the list `buffer`
--     being the storage; `push`, `push_all`, `pop`, `reserve` with `store` for what the caller does
--     with the pointer, `drop`, `clear`, `index` for `operator[]`, `copy` for the copy constructor and
--     `assign` for `operator=`. `contents` is the abstract view: the bytes held, oldest first.
--   Frame: include/transport/haier_frame.h and src/transport/haier_frame.cpp. Types has the constants
--     and the class, Checksums `crc16` and `checksum`, Build the constructor and `get_buffer_size`,
--     Fill `fill_buffer`, Parse `parse_buffer`. Wire is the format that README.rst describes, written
--     without a cursor; Accounts, FillWire, Roundtrip, Accepted, Outcome and Polynomial are about the
--     operations.
--     `parse_buffer` takes the buffer as a list, so that its size is the length.
--   Stream: include/utils/protocol_stream.h, an interface. What its comments promise are fields.
--   Transport: include/transport/protocol_transport.h and src/transport/protocol_transport.cpp. State
--     has the class, Scan `process_data`, Io `send_data` and `read_data`. Invariant and Total are about
--     the loop as a whole, Unescape, Walk, Decode, Parts and Taken about what it makes of a frame, Noise
--     and Search about what it passes over, Line and Frames about any sequence of both. Extend, Alike, Within,
--     Hunted, Rounds, Arrival and InParts are about bytes that arrive in parts, Cut about frames that do.
--     Feed, Deliver and Poll are about reading, Send about sending, Capacity and Reset about what stays
--     and the resets.
--   VirtualStream: test/utils/virtual_stream.h and virtual_stream.cpp, two rings that join two handlers.
--   Message: include/protocol/haier_message.h and src/protocol/haier_message.cpp.
--   Protocol: include/protocol/haier_protocol.h and src/protocol/haier_protocol.cpp. State has the
--     class, Calls the client's calls, Loop `loop`. Called, Sound and Turn are about the invariant of a
--     turn, Write about a message's way to the stream, Reads, Replies and Answered about a
--     message or an answer that comes, Silent, Attempts, Turns and GivingUp about an answer that does
--     not, Enqueued about what the calls of a client put into the queue, Ends and Exchange about two
--     handlers on one line, Maps about the maps of handlers.
--   Frame/Kinds: include/protocol/haier_frame_types.h, the names of frame types.
--   Bits: the bit-fields of the packet structures, as digits of a byte. Digits and Fields are about them.
--   Hon: tools/utils/hon_packet.h, hon_server.h, hon_server.cpp, tools/hon_simulator/main.cpp and the
--     registration in tools/utils/simulator_base.cpp. Packet has the modes and the places of the members,
--     Server the variables, the start and the alarms, Parameters and Handlers the handlers, Simulator what
--     main.cpp adds. Answers, Requests and Serve are about the answers, Members, Layout and Set about
--     single parameters, Group about a group of them, Alarms and Reports about alarms, Readings, Keeps,
--     Kept and Steps about every state that is reached. The answer of a handler is a call of `send_answer`, as the
--     protocol's client makes it; Serve runs it in `handle_message`, and Line in a turn of `loop`.
--   SmartAir2: tools/utils/smartair2_packet.h, smartair2_server.cpp and tools/smartair2_simulator/main.cpp.
--     Packet and Server have the structure and the handlers, Status and Answers are about them.
--   Log: src/utils/haier_log.cpp. A write to memory is an offset and a character, so that one beyond the
--     buffer shows. State has the log handler; Text, Placed and Print are about the text, Bounds and
--     Overrun about `msg_buffer`.
--   Console: tools/utils/console_log.cpp, as it is built for Linux without curses; Line is about
--     `msg_buffer`.
--   Serial: tools/utils/serial_stream.h and serial_stream.cpp, as they are built for Linux. The system's
--     calls on the port are the record Port. Lossless is about what goes in and comes out.
--   Bridge: tools/remote_serial_bridge/main.cpp, as it is built for Linux, between a port and a socket,
--     which is the record Socket. Recorded makes of any port and socket the same ones with a record of
--     what their own calls gave and were given; on these, Joined and Forward are about what the loop
--     moves, Escape about the key that ends it, Start about `main`.
--   The modules named Tests hold concrete runs, with a stream that is two lists.
--
-- How the program is written down:
--   Numbers are natural numbers. A byte, a CRC and a `size_t` wrap where the code's do: `u8`, `u16`,
--   and `size_add` and `size_sub` at 32 bits, the size of `size_t` on the ESP32. A ring is valid only
--   while twice its capacity fits in 32 bits. Other integers, times among them, do not wrap.
--   A method is a function from the state to the state and the result. The allocations of `new` are
--   arguments where their content is read: `storage`, `garbage`.
--   `process_data` is a loop on fuel, `scan_fuel`, quadratic in the buffer's size: a round goes on to
--   the next byte, or drops bytes, or gives up a header, and every drop may start the count anew. No
--   fuel is left out of the result: the model returns `none` where it runs out.
--   A client's handler is a function from its arguments to the calls on the protocol handler that it
--   makes, in order, and its result. The clock is an argument of each operation that asks for it.
--   `front` and `pop` of an empty `std::queue` have no defined behaviour; the model leaves the queue
--   as it is there.
--
--   A packet structure is the list of its bytes. Members are read and assigned as GCC and Clang lay out
--   bit-fields for little-endian targets. `reset_alarms` has the size of a `size_t` as an argument.
--
-- What is not modelled: the destructors and the release of memory; the lines that the appliances write
-- to the log; what `vsnprintf` makes of its arguments, which is an argument of `log_haier`, and of
-- `console_logger` as its text; the settings of the serial port, the opening of the socket, the keyboard,
-- curses and the two threads of a simulator, which are calls of the operating system; the branches of the
-- tools for Windows; the programs under test/, which run the library at fixed inputs.
pub mod Prelude
pub mod Circular
pub mod Frame
pub mod Stream
pub mod VirtualStream
pub mod Serial
pub mod Bridge
pub mod Transport
pub mod Message
pub mod Protocol
pub mod Bits
pub mod Hon
pub mod SmartAir2
pub mod Log
pub mod Console
