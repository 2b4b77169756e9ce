-- ===== src/Packet/RoundTrip.antt =====
-- A packet that was written is read back, and the stream goes on behind it (src/jdwpy/packet.py).
use jdwpy.Prelude.{
  List, [], arith, drop-length, false, leb, length, length-append, le→leb, ltb, take-length, true,
  ℕ, ◌++◌, ◌+◌, ◌-◌, ◌<◌, ◌^◌, ◌∙◌, ◌∷◌, ◌≡◌,
}
use jdwpy.Prelude.Int.{negsuc, pos, ℤ}
use jdwpy.Struct.{big_endian, ok}
use jdwpy.Io.Ranges.{IsUnsigned}
use jdwpy.Packet.{
  JdwpPacket, command_packet, deserialize, field_at, from_parts, has_reply_flag, reply_packet,
  to_bytes,
}
use jdwpy.Packet.Headers.{command_header, field_at-big_endian, pack_unsigned-ok, reply_header}

-- A packet that can be packed, and that its class accepts.
abbrev pub IsPacket : JdwpPacket → Type 0
IsPacket (command_packet packet) =
    IsUnsigned 4 packet.id
    × IsUnsigned 1 packet.flags
    × IsUnsigned 1 packet.command_set
    × IsUnsigned 1 packet.command
    × (11 + length packet.payload < 256 ^ 4)
    × (has_reply_flag packet.flags ≡ false)
IsPacket (reply_packet packet) =
    IsUnsigned 4 packet.id
    × IsUnsigned 1 packet.flags
    × IsUnsigned 2 packet.error_code
    × (11 + length packet.payload < 256 ^ 4)
    × (has_reply_flag packet.flags ≡ true)

-- What `deserialize` does behind a header of 11 bytes that shows the size of the payload.
deserialize-parts :
    (a b c d e f g h i j k : ℕ) (payload rest : List ℕ)
    → field_at 0 4 (a ∷ b ∷ c ∷ d ∷ e ∷ f ∷ g ∷ h ∷ i ∷ j ∷ k ∷ []) ≡ 11 + length payload
    → deserialize (a ∷ b ∷ c ∷ d ∷ e ∷ f ∷ g ∷ h ∷ i ∷ j ∷ k ∷ (payload ++ rest))
      ≡ from_parts (a ∷ b ∷ c ∷ d ∷ e ∷ f ∷ g ∷ h ∷ i ∷ j ∷ k ∷ []) (payload, rest)
unfolding deserialize
deserialize-parts a b c d e f g h i j k payload rest size = rw (
  le→leb 11 (length (a ∷ b ∷ c ∷ d ∷ e ∷ f ∷ g ∷ h ∷ i ∷ j ∷ k ∷ (payload ++ rest))) (omega arith),
  size,
  short,
  exact,
  fits,
  take-length payload rest,
  drop-length payload rest,
)
  where
    short : ltb (11 + length payload) 11 ≡ false
    short = ground arith

    exact : 11 + length payload - 11 ≡ length payload
    exact = omega arith

    fits : leb (length payload) (length (payload ++ rest)) ≡ true
    fits = le→leb _ _ (omega (arith, length-append payload rest))

module _ (id flags set command : ℕ) (payload rest : List ℕ) where
  command_round_trip :
      id < 256 ^ 4
      → flags < 256 ^ 1
      → set < 256 ^ 1
      → command < 256 ^ 1
      → 11 + length payload < 256 ^ 4
      → has_reply_flag (pos flags) ≡ false
      → deserialize ((command_header (11 + length payload) id flags set command ++ payload) ++ rest)
        ≡ ok (
          command_packet (record {
            id = pos id;
            flags = pos flags;
            payload = payload;
            command_set = pos set;
            command = pos command;
          }),
          rest,
        )
  unfolding command_header big_endian from_parts
  command_round_trip hi hf hs hc hl bit =
      deserialize-parts _ _ _ _ _ _ _ _ _ _ _ payload rest (
        field_at-big_endian [] 4 (11 + length payload)
          (big_endian 4 id ++ (big_endian 1 flags ++ (big_endian 1 set ++ big_endian 1 command)))
          hl)
      ∙ rw (
        field_at-big_endian (big_endian 4 (11 + length payload) ++ big_endian 4 id) 1 flags
            (big_endian 1 set ++ big_endian 1 command) hf,
        bit,
        field_at-big_endian (big_endian 4 (11 + length payload)) 4 id
            (big_endian 1 flags ++ (big_endian 1 set ++ big_endian 1 command)) hi,
        field_at-big_endian
            (big_endian 4 (11 + length payload) ++ (big_endian 4 id ++ big_endian 1 flags)) 1 set
            (big_endian 1 command) hs,
        field_at-big_endian
            (big_endian 4 (11 + length payload)
              ++ (big_endian 4 id ++ (big_endian 1 flags ++ big_endian 1 set)))
            1 command [] hc,
      )

module _ (id flags code : ℕ) (payload rest : List ℕ) where
  reply_round_trip :
      id < 256 ^ 4
      → flags < 256 ^ 1
      → code < 256 ^ 2
      → 11 + length payload < 256 ^ 4
      → has_reply_flag (pos flags) ≡ true
      → deserialize ((reply_header (11 + length payload) id flags code ++ payload) ++ rest)
        ≡ ok (
          reply_packet
              (record { id = pos id; flags = pos flags; payload = payload; error_code = pos code }),
          rest,
        )
  unfolding reply_header big_endian from_parts
  reply_round_trip hi hf hc hl bit =
      deserialize-parts _ _ _ _ _ _ _ _ _ _ _ payload rest (
        field_at-big_endian [] 4 (11 + length payload)
          (big_endian 4 id ++ (big_endian 1 flags ++ big_endian 2 code)) hl)
      ∙ rw (
        field_at-big_endian (big_endian 4 (11 + length payload) ++ big_endian 4 id) 1 flags
            (big_endian 2 code) hf,
        bit,
        field_at-big_endian (big_endian 4 (11 + length payload)) 4 id
            (big_endian 1 flags ++ big_endian 2 code) hi,
        field_at-big_endian
            (big_endian 4 (11 + length payload) ++ (big_endian 4 id ++ big_endian 1 flags)) 2 code
            [] hc,
      )

-- The bytes of the packet, and that a stream that begins with them gives the packet.
abbrev pub Survives : JdwpPacket → Type 0
Survives packet =
    (bytes : List ℕ) × (to_bytes packet ≡ ok bytes)
    × ((rest : List ℕ) → deserialize (bytes ++ rest) ≡ ok (packet, rest))

command-Survives :
    (id flags set command : ℤ) (payload : List ℕ)
    → IsUnsigned 4 id
    → IsUnsigned 1 flags
    → IsUnsigned 1 set
    → IsUnsigned 1 command
    → 11 + length payload < 256 ^ 4
    → has_reply_flag flags ≡ false
    → Survives (
        command_packet (record {
          id = id;
          flags = flags;
          payload = payload;
          command_set = set;
          command = command;
        }))
unfolding to_bytes command_header
command-Survives (pos i) (pos f) (pos s) (pos c) payload hi hf hs hc hl bit = (
  command_header (11 + length payload) i f s c ++ payload,
  rw (
    pack_unsigned-ok 4 (11 + length payload) hl,
    pack_unsigned-ok 4 i hi,
    pack_unsigned-ok 1 f hf,
    pack_unsigned-ok 1 s hs,
    pack_unsigned-ok 1 c hc,
  ),
  λ rest. command_round_trip i f s c payload rest hi hf hs hc hl bit,
)
command-Survives (negsuc i) f s c payload hi hf hs hc hl bit = absurd hi
command-Survives (pos i) (negsuc f) s c payload hi hf hs hc hl bit = absurd hf
command-Survives (pos i) (pos f) (negsuc s) c payload hi hf hs hc hl bit = absurd hs
command-Survives (pos i) (pos f) (pos s) (negsuc c) payload hi hf hs hc hl bit = absurd hc

reply-Survives :
    (id flags code : ℤ) (payload : List ℕ)
    → IsUnsigned 4 id
    → IsUnsigned 1 flags
    → IsUnsigned 2 code
    → 11 + length payload < 256 ^ 4
    → has_reply_flag flags ≡ true
    → Survives
        (reply_packet (record { id = id; flags = flags; payload = payload; error_code = code }))
unfolding to_bytes reply_header
reply-Survives (pos i) (pos f) (pos c) payload hi hf hc hl bit = (
  reply_header (11 + length payload) i f c ++ payload,
  rw (
    pack_unsigned-ok 4 (11 + length payload) hl,
    pack_unsigned-ok 4 i hi,
    pack_unsigned-ok 1 f hf,
    pack_unsigned-ok 2 c hc,
  ),
  λ rest. reply_round_trip i f c payload rest hi hf hc hl bit,
)
reply-Survives (negsuc i) f c payload hi hf hc hl bit = absurd hi
reply-Survives (pos i) (negsuc f) c payload hi hf hc hl bit = absurd hf
reply-Survives (pos i) (pos f) (negsuc c) payload hi hf hc hl bit = absurd hc

-- The bytes of a packet whose fields fit their widths, whose size fits four bytes and whose reply flag
-- is that of its class exist, and a stream that begins with them is read as the packet and the rest.
pub deserialize-to_bytes : (packet : JdwpPacket) → IsPacket packet → Survives packet
deserialize-to_bytes (command_packet c) (hi, hf, hs, hc, hl, bit) =
    command-Survives c.id c.flags c.command_set c.command c.payload hi hf hs hc hl bit
deserialize-to_bytes (reply_packet r) (hi, hf, hc, hl, bit) =
    reply-Survives r.id r.flags r.error_code r.payload hi hf hc hl bit
