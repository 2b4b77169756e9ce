-- ===== src/Lib.antt =====
-- jdwpy: a client of the Java Debug Wire Protocol, and the payloads of every command of the protocol.
--
-- The program turns commands and replies into bytes (src/jdwpy/commands, by the writer and the reader of
-- src/jdwpy/io.py and the identifier sizes of src/jdwpy/spec.py), puts the bytes in packets
-- (src/jdwpy/packet.py), and matches replies with calls over one connection (src/jdwpy/connection.py).
-- The files follow these parts:
--   Prelude, Prelude/*      names of the library, Boolean tests, lists and integers.
--   Struct, Struct/*        Python's `struct` and byte strings as far as the code uses them: big-endian
--                           integers, reads at an offset, slices.
--   Utf8, Utf8/*            Python's UTF-8 codec, strict.
--   Constants, Constants/*  src/jdwpy/constants.py, one file for each enumeration or two.
--   Spec, Spec/*            src/jdwpy/spec.py: `IdSizesSpec.create` is `create`.
--   Io, Io/*                src/jdwpy/io.py: `JdwpReader.read_x` is `read_x` of Io/Reader and Io/Values,
--                           `JdwpWriter.write_x` is `write_x` of Io/Writer and Io/Values. A method is a
--                           function of the reader or writer that gives the object after it or the
--                           exception. Io/Codec has the rules by which round trips are put together, and
--                           Io/Primitives and Io/Fields the round trips of the methods.
--   Commands/Base           `to_bytes` and `from_bytes` of src/jdwpy/commands/base.py.
--   Commands/<Set>/*        src/jdwpy/commands/<set>.py: a class is a record, its `serialize` is
--                           `serialize_<class>`, its `deserialize` is `deserialize_<class>`.
--   Commands/Event/Events, Commands/EventRequest/Modifiers: the dispatch on event and modifier kinds.
--   Commands/Registry, Commands/Registry/*: src/jdwpy/commands/registry.py, and what is registered.
--   Commands/Payloads       theorems on payloads that hold lists of values of several kinds.
--   Packet, Packet/*        src/jdwpy/packet.py, and the stream sender and receiver of connection.py.
--   Dict                    Python's dict with integer keys.
--   Connection, Connection/*: ConnectionState and JdwpPacketConnection of src/jdwpy/connection.py. Each
--                           stretch of code between two `await`s is a function on the state:
--                           `send_command_packet` is `begin_send`, then `finish_send` or `abandon_send`;
--                           `receive_command` is `receive_reply` for each reply and `fail_receive` for an
--                           exception; `close` is `close`. Connection/Steps has the orders in which these
--                           can happen, Connection/Invariant and Connection/Outcomes what each keeps.
--   Connection/Simple, Connection/Simple/*: SimpleJdwpConnection. `send_command` is `start_command` up to the
--                           `await` of the reply and `finish_command` from the reply on;
--                           `SimpleReach` has the states that a connection comes to.
--   Proxy, Proxy/*          src/jdwpy/proxy.py: `_handle_x_packet` is `handle_x_packet`, and the two loops
--                           are `run_dbg_loop` and `run_vm_loop` on the packets that come.
--   Tests, Tests/*          concrete packets, payloads and runs.
--
-- Bytes are natural numbers, integers of Python are integers, and a packed integer of w bytes is packed
-- only in its range (`struct.error` otherwise). A double is the pattern of its 64 bits. `Platform` is
-- what the code takes from Python's conversions between doubles, singles and integers, with the law that
-- a single which is not a NaN comes back from its widening. The one function that runs on fuel is the length of a
-- number in bits (Constants/Flags): n rounds are enough, since n is below 2 to the power n.
--
-- Not modelled: sockets, draining and closing of streams, the handshake, logging and `format_hexdump`,
-- SimpleJdwpConnection.receive_command, JdwpConnectionWithAsyncLoop, which stands on SimpleJdwpConnection,
-- asyncio itself (tasks run one at a time between two `await`s), the fakes of
-- src/jdwpy/testing.py, examples and scripts. A JdwpValue holds a value of
-- its tag's type, where Python would take any value; Io/Dynamic writes it by another tag.
pub mod Prelude
pub mod Struct
pub mod Utf8
pub mod Constants
pub mod Spec
pub mod Io
pub mod Commands
pub mod Dict
pub mod Packet
pub mod Connection
pub mod Proxy
pub mod Tests
