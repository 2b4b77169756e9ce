-- ===== src/Packet/Streams.antt =====
-- A receiver that is asked for packets again and again (`StreamJdwpPacketReceiver` of
-- src/jdwpy/connection.py over `deserialize` of src/jdwpy/packet.py).
use jdwpy.Prelude.{All, List, [], append_assoc, length, refl, suc, zero, ℕ, ◌++◌, ◌∷◌, ◌≡◌}
use jdwpy.Struct.{Result, ok}
use jdwpy.Packet.{JdwpPacket, deserialize, to_bytes, ◌>>=◌}
use jdwpy.Packet.RoundTrip.{IsPacket, deserialize-to_bytes}

-- The bytes of packets that are sent one after another.
unfoldable pub send_all : List JdwpPacket → Result (List ℕ)
send_all [] = ok []
send_all (packet ∷ rest) = do bytes ← to_bytes packet; more ← send_all rest; ok (bytes ++ more)

-- `receive` n times.
unfoldable pub receive_all : ℕ → List ℕ → Result (List JdwpPacket × List ℕ)
receive_all zero stream = ok ([], stream)
receive_all (suc n) stream = do
  (packet, rest) ← deserialize stream
  (packets, left) ← receive_all n rest
  ok (packet ∷ packets, left)

-- Packets that can be packed are sent, and a receiver that is asked for as many receives just these, in
-- this order, whatever follows them in the stream.
pub receive_all-send_all :
    (packets : List JdwpPacket)
    → All IsPacket packets
    → (bytes : List ℕ) × (send_all packets ≡ ok bytes)
      × ((rest : List ℕ) → receive_all (length packets) (bytes ++ rest) ≡ ok (packets, rest))
unfolding send_all receive_all
receive_all-send_all [] h = ([], refl, λ rest. refl)
receive_all-send_all (packet ∷ packets) (hp, hs) =
    let (first, sent, received) = deserialize-to_bytes packet hp in
    let (bytes, sent', received') = receive_all-send_all packets hs in
    (
      first ++ bytes,
      rw (sent, sent'),
      λ rest. rw (append_assoc first bytes rest, received (bytes ++ rest), received' rest),
    )
