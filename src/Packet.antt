-- ===== src/Packet.antt =====
-- src/jdwpy/packet.py: packets, their bytes, and reading one from a stream. A stream is the list of the
-- bytes that will arrive before it ends; waiting for them is not modelled. The field `data` of the
-- source is `payload`.
pub mod Headers
pub mod RoundTrip
pub mod Inversion
pub mod Inverse
pub mod Streams
use jdwpy.Prelude.{Bool, List, drop, if◌then◌else◌, leb, length, ltb, take, ℕ, ◌++◌, ◌+◌, ◌-◌, ◌==◌}
use jdwpy.Prelude.Int.{pos, ℤ}
use jdwpy.Struct.{
  Result, err, from_big_endian, incomplete_read, ok, pack_unsigned, struct_error, value_error,
}
use jdwpy.Io.Writer.{low_byte}

pub record JdwpCommandPacket : Type 0 where
  pub id : ℤ
  pub flags : ℤ
  pub payload : List ℕ
  pub command_set : ℤ
  pub command : ℤ

-- The error code is an `int`: a member of JdwpErrorCode where the number is one's value.
pub record JdwpReplyPacket : Type 0 where
  pub id : ℤ
  pub flags : ℤ
  pub payload : List ℕ
  pub error_code : ℤ

pub data JdwpPacket : Type 0 where
  command_packet : JdwpCommandPacket → JdwpPacket
  reply_packet : JdwpReplyPacket → JdwpPacket

infixl 5 ◌>>=◌
abbrev pub ◌>>=◌ {ℓ κ} : {A : Type ℓ} {B : Type κ} → Result A → (A → Result B) → Result B
ok a >>= f = f a
err e >>= f = err e

-- `bool(flags & 0x80)`, also of a negative number.
unfoldable pub has_reply_flag : ℤ → Bool
has_reply_flag flags = ltb 127 (low_byte flags)

-- `__post_init__` of a command packet and of a reply packet.
unfoldable pub new_command_packet : JdwpCommandPacket → Result JdwpCommandPacket
new_command_packet packet = if has_reply_flag packet.flags then err value_error else ok packet

unfoldable pub new_reply_packet : JdwpReplyPacket → Result JdwpReplyPacket
new_reply_packet packet = if has_reply_flag packet.flags then ok packet else err value_error

-- `length`
abbrev pub packet_length : List ℕ → ℤ
packet_length payload = pos (11 + length payload)

-- `HEADER_STRUCT.pack`, ">IIBBB" and ">IIBH".
unfoldable pub to_bytes : JdwpPacket → Result (List ℕ)
to_bytes (command_packet packet) = do
  a ← pack_unsigned 4 (packet_length packet.payload)
  b ← pack_unsigned 4 packet.id
  c ← pack_unsigned 1 packet.flags
  d ← pack_unsigned 1 packet.command_set
  e ← pack_unsigned 1 packet.command
  ok ((a ++ (b ++ (c ++ (d ++ e)))) ++ packet.payload)
to_bytes (reply_packet packet) = do
  a ← pack_unsigned 4 (packet_length packet.payload)
  b ← pack_unsigned 4 packet.id
  c ← pack_unsigned 1 packet.flags
  d ← pack_unsigned 2 packet.error_code
  ok ((a ++ (b ++ (c ++ d))) ++ packet.payload)

-- The unsigned integer of w bytes at the position of a header.
abbrev pub field_at : ℕ → ℕ → List ℕ → ℕ
field_at position w header = from_big_endian (take w (drop position header))

-- `JdwpCommandPacket.from_bytes`: `unpack` wants the whole header.
unfoldable pub command_from_bytes : List ℕ → List ℕ → Result JdwpPacket
unfolding new_command_packet
command_from_bytes header payload =
    if length header == 11
    then (do
      packet ← new_command_packet (record {
        id = pos (field_at 4 4 header);
        flags = pos (field_at 8 1 header);
        payload = payload;
        command_set = pos (field_at 9 1 header);
        command = pos (field_at 10 1 header);
      })
      ok (command_packet packet))
    else err struct_error

-- `JdwpReplyPacket.from_bytes`
unfoldable pub reply_from_bytes : List ℕ → List ℕ → Result JdwpPacket
unfolding new_reply_packet
reply_from_bytes header payload =
    if length header == 11
    then (do
      packet ← new_reply_packet (record {
        id = pos (field_at 4 4 header);
        flags = pos (field_at 8 1 header);
        payload = payload;
        error_code = pos (field_at 9 2 header);
      })
      ok (reply_packet packet))
    else err struct_error

-- `await reader.readexactly(n)`: the bytes and the rest of the stream.
unfoldable pub read_exactly : ℕ → List ℕ → Result (List ℕ × List ℕ)
read_exactly n stream =
    if leb n (length stream) then ok (take n stream, drop n stream) else err incomplete_read

unfoldable pub from_parts : List ℕ → List ℕ × List ℕ → Result (JdwpPacket × List ℕ)
unfolding command_from_bytes reply_from_bytes
from_parts header (payload, rest) = do
  packet ←
      (if has_reply_flag (pos (field_at 8 1 header))
        then reply_from_bytes header payload
        else command_from_bytes header payload)
  ok (packet, rest)

unfoldable pub after_header : List ℕ × List ℕ → Result (JdwpPacket × List ℕ)
unfolding from_parts read_exactly
after_header (header, stream) =
    if ltb (field_at 0 4 header) 11
    then err value_error
    else (do parts ← read_exactly (field_at 0 4 header - 11) stream; from_parts header parts)

-- `JdwpPacket.deserialize`: the packet and the rest of the stream.
unfoldable pub deserialize : List ℕ → Result (JdwpPacket × List ℕ)
unfolding read_exactly after_header has_reply_flag
deserialize stream = do parts ← read_exactly 11 stream; after_header parts
