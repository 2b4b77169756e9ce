-- ===== src/Packet/Inversion.antt =====
-- Where `deserialize` of src/jdwpy/packet.py gives a packet.
use jdwpy.Prelude.{
  Bool-cases, List, [], arith, drop, false, inl, inr, leb, length, le→leb, ltb, refl, suc, take,
  true, zero, ℕ, ◌+◌, ◌-◌, ◌∷◌, ◌≡◌, ◌≤◌,
}
use jdwpy.Prelude.Int.{pos}
use jdwpy.Struct.{ok}
use jdwpy.Packet.{
  JdwpPacket, after_header, command_packet, deserialize, field_at, from_parts, has_reply_flag,
  reply_packet,
}

pub length-take-drop :
    (n : ℕ) (xs : List ℕ)
    → n ≤ length xs
    → (length (take n xs) ≡ n) × (length (drop n xs) + n ≡ length xs)
length-take-drop zero xs h = (refl, omega arith)
length-take-drop (suc n) [] h = absurd (omega arith)
length-take-drop (suc n) (x ∷ xs) h =
    let t : (length (take n xs) ≡ n) × (length (drop n xs) + n ≡ length xs) =
      length-take-drop n xs (omega arith) in
    (omega arith, omega arith)

from_parts_total :
    (header payload left : List ℕ)
    → length header ≡ 11
    → (packet : JdwpPacket) × (from_parts header (payload, left) ≡ ok (packet, left))
unfolding from_parts
from_parts_total header payload left h =
    elim (Bool-cases (has_reply_flag (pos (field_at 8 1 header)))) [
      | inl reply ↦ (
        reply_packet (record {
          id = pos (field_at 4 4 header);
          flags = pos (field_at 8 1 header);
          payload = payload;
          error_code = pos (field_at 9 2 header);
        }),
        ground arith,
      )
      | inr command ↦ (
        command_packet (record {
          id = pos (field_at 4 4 header);
          flags = pos (field_at 8 1 header);
          payload = payload;
          command_set = pos (field_at 9 1 header);
          command = pos (field_at 10 1 header);
        }),
        ground arith,
      )
    ]

-- Every stream whose first four bytes show a size of 11 or more, and that holds as many bytes, has a
-- packet in front.
pub deserialize_total :
    (stream : List ℕ)
    → 11 ≤ field_at 0 4 (take 11 stream)
    → field_at 0 4 (take 11 stream) ≤ length stream
    → (packet : JdwpPacket) × (rest : List ℕ) × (deserialize stream ≡ ok (packet, rest))
unfolding deserialize after_header
deserialize_total stream low high =
    let size : ℕ = field_at 0 4 (take 11 stream) in
    let whole : 11 ≤ length stream = omega arith in
    let lengths : (length (take 11 stream) ≡ 11) × (length (drop 11 stream) + 11 ≡ length stream) =
      length-take-drop 11 stream whole in
    let (packet, e) =
      from_parts_total (take 11 stream) (take (size - 11) (drop 11 stream))
        (drop (size - 11) (drop 11 stream)) lengths.0 in
    (packet, drop (size - 11) (drop 11 stream), rw (le→leb 11 (length stream) whole, large, fits) e)
  where
    large : ltb (field_at 0 4 (take 11 stream)) 11 ≡ false
    large = ground arith

    fits : leb (field_at 0 4 (take 11 stream) - 11) (length (drop 11 stream)) ≡ true
    fits = le→leb _ _ (omega (arith, (length-take-drop 11 stream (omega arith)).1))
