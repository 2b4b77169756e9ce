-- ===== src/Tests/Packets.antt =====
-- Packets as bytes, and what a stream of bytes holds.
use jdwpy.Prelude.{List, [], arith, refl, take, ℕ, ◌++◌, ◌∷◌, ◌≡◌}
use jdwpy.Struct.{from_big_endian, ok}
use jdwpy.Io.Writer.{low_byte}
use jdwpy.Packet.{
  JdwpPacket, after_header, deserialize, field_at, from_parts, has_reply_flag, reply_packet,
}
use jdwpy.Packet.RoundTrip.{IsPacket, Survives, deserialize-to_bytes}
use jdwpy.Packet.Streams.{receive_all, receive_all-send_all, send_all}
use jdwpy.Packet.Inversion.{deserialize_total}
use jdwpy.Tests.Data.{id_sizes_packet, id_sizes_reply}
use jdwpy.Packet.Inverse.{CameFrom, IsBytes, to_bytes-deserialize}

id_sizes_packet-IsPacket : IsPacket id_sizes_packet
unfolding has_reply_flag low_byte
id_sizes_packet-IsPacket = (omega arith, omega arith, omega arith, omega arith, omega arith, refl)

id_sizes_reply-IsPacket : IsPacket (reply_packet id_sizes_reply)
unfolding has_reply_flag low_byte
id_sizes_reply-IsPacket = (omega arith, omega arith, omega arith, omega arith, refl)

deserialize-to_bytes_example : Survives id_sizes_packet
deserialize-to_bytes_example = deserialize-to_bytes id_sizes_packet id_sizes_packet-IsPacket

receive_all-send_all_example :
    (bytes : List ℕ) × (send_all (id_sizes_packet ∷ reply_packet id_sizes_reply ∷ []) ≡ ok bytes)
    × ((rest : List ℕ)
        → receive_all 2 (bytes ++ rest)
          ≡ ok (id_sizes_packet ∷ reply_packet id_sizes_reply ∷ [], rest))
receive_all-send_all_example =
    receive_all-send_all (id_sizes_packet ∷ reply_packet id_sizes_reply ∷ [])
      (id_sizes_packet-IsPacket, (id_sizes_reply-IsPacket, tt))

abbrev id_sizes_stream : List ℕ
id_sizes_stream = 0 ∷ 0 ∷ 0 ∷ 11 ∷ 0 ∷ 0 ∷ 0 ∷ 1 ∷ 0 ∷ 1 ∷ 7 ∷ 9 ∷ []

id_sizes_stream-IsBytes : IsBytes id_sizes_stream
id_sizes_stream-IsBytes = (
  omega arith,
  (
    omega arith,
    (
      omega arith,
      (
        omega arith,
        (
          omega arith,
          (
            omega arith,
            (
              omega arith,
              (omega arith, (omega arith, (omega arith, (omega arith, (omega arith, tt))))),
            ),
          ),
        ),
      ),
    ),
  ),
)

deserialize-id_sizes_stream : deserialize id_sizes_stream ≡ ok (id_sizes_packet, 9 ∷ [])
unfolding deserialize after_header from_parts has_reply_flag low_byte from_big_endian
deserialize-id_sizes_stream = refl

to_bytes-deserialize_example : CameFrom id_sizes_stream id_sizes_packet (9 ∷ [])
to_bytes-deserialize_example =
    to_bytes-deserialize id_sizes_stream (9 ∷ []) id_sizes_packet id_sizes_stream-IsBytes
      deserialize-id_sizes_stream

id_sizes_stream-size : field_at 0 4 (take 11 id_sizes_stream) ≡ 11
unfolding from_big_endian
id_sizes_stream-size = refl

deserialize_total_example :
    (packet : JdwpPacket) × (rest : List ℕ) × (deserialize id_sizes_stream ≡ ok (packet, rest))
deserialize_total_example =
    deserialize_total id_sizes_stream (omega (arith, id_sizes_stream-size))
      (omega (arith, id_sizes_stream-size))
