-- ===== src/Packet/Inverse.antt =====
-- A packet that was read writes the bytes that it was read from (`deserialize` and `to_bytes` of
-- src/jdwpy/packet.py), on any stream.
use jdwpy.Prelude.{
  All, Bool-cases, List, [], ap, arith, drop, false, inl, inr, leb, leb→le, length, le→leb, ltb,
  refl, suc, sym, take, true, zero, ℕ, ◌++◌, ◌+◌, ◌-◌, ◌<◌, ◌∙◌, ◌∷◌, ◌≡◌, ◌≤◌,
}
use jdwpy.Prelude.Int.{pos}
use jdwpy.Struct.{Result, big_endian, err, from_big_endian, ok, pack_unsigned}
use jdwpy.Packet.{
  JdwpPacket, after_header, deserialize, field_at, from_parts, has_reply_flag, packet_length,
  to_bytes,
}
use jdwpy.Packet.Headers.{pack_unsigned-ok}
use jdwpy.Packet.Inversion.{length-take-drop}
use mathlib.Core.Path.{subst}

abbrev pub IsBytes : List ℕ → Type 0
IsBytes bs = All (λ b. b < 256) bs

cons_eq : {x y : ℕ} {xs ys : List ℕ} → x ≡ y → xs ≡ ys → x ∷ xs ≡ y ∷ ys
cons_eq {y = y} {xs = xs} e h = ap (λ z. z ∷ xs) e ∙ ap (λ zs. y ∷ zs) h

-- Packing the number that bytes show gives the bytes.
pack_unsigned-one :
    (a : ℕ) → a < 256 → pack_unsigned 1 (pos (from_big_endian (a ∷ []))) ≡ ok (a ∷ [])
unfolding big_endian from_big_endian
pack_unsigned-one a h =
    pack_unsigned-ok 1 (from_big_endian (a ∷ [])) (omega arith) ∙ ap ok (cons_eq (omega arith) refl)

pack_unsigned-two :
    (a b : ℕ)
    → a < 256
    → b < 256
    → pack_unsigned 2 (pos (from_big_endian (a ∷ b ∷ []))) ≡ ok (a ∷ b ∷ [])
unfolding big_endian from_big_endian
pack_unsigned-two a b ha hb =
    pack_unsigned-ok 2 (from_big_endian (a ∷ b ∷ [])) (omega arith)
    ∙ ap ok (cons_eq (omega arith) (cons_eq (omega arith) refl))

pack_unsigned-four :
    (a b c d : ℕ)
    → IsBytes (a ∷ b ∷ c ∷ d ∷ [])
    → pack_unsigned 4 (pos (from_big_endian (a ∷ b ∷ c ∷ d ∷ []))) ≡ ok (a ∷ b ∷ c ∷ d ∷ [])
unfolding big_endian from_big_endian
pack_unsigned-four a b c d (ha, (hb, (hc, (hd, _)))) =
    pack_unsigned-ok 4 (from_big_endian (a ∷ b ∷ c ∷ d ∷ [])) (omega arith)
    ∙ ap ok (
        cons_eq (omega arith)
          (cons_eq (omega arith) (cons_eq (omega arith) (cons_eq (omega arith) refl))))

-- Eleven bytes and what follows.
module _ (a b c d e f g h i j k : ℕ) (payload left : List ℕ) where
  abbrev header : List ℕ
  header = a ∷ b ∷ c ∷ d ∷ e ∷ f ∷ g ∷ h ∷ i ∷ j ∷ k ∷ []

  -- A packet that writes the header and the payload, with the rest.
  abbrev WritesBack : Result (JdwpPacket × List ℕ) → Type 0
  WritesBack (ok (packet, rest)) = (to_bytes packet ≡ ok (header ++ payload)) × (rest ≡ left)
  WritesBack (err e) = Unit {0}

  packed_size :
      IsBytes header
      → field_at 0 4 header ≡ 11 + length payload
      → pack_unsigned 4 (packet_length payload) ≡ ok (a ∷ b ∷ c ∷ d ∷ [])
  packed_size bytes size =
      ap (λ n. pack_unsigned 4 (pos n)) (sym size)
      ∙ pack_unsigned-four a b c d (bytes.0, (bytes.1.0, (bytes.1.1.0, (bytes.1.1.1.0, tt))))

  from_parts-WritesBack :
      IsBytes header
      → field_at 0 4 header ≡ 11 + length payload
      → WritesBack (from_parts header (payload, left))
  unfolding from_parts to_bytes
  from_parts-WritesBack bytes size =
      let (_, (_, (_, (_, (he, (hf, (hg, (hh, (hi, (hj, (hk, _))))))))))) = bytes in
      let id = pack_unsigned-four e f g h (he, (hf, (hg, (hh, tt)))) in
      elim (Bool-cases (has_reply_flag (pos (from_big_endian (i ∷ []))))) [
        | inl reply ↦ rw (reply) (
          rw (packed_size bytes size, id, pack_unsigned-one i hi, pack_unsigned-two j k hj hk) refl,
          refl,
        )
        | inr command ↦ rw (command) (
          rw
              (
                packed_size bytes size,
                id,
                pack_unsigned-one i hi,
                pack_unsigned-one j hj,
                pack_unsigned-one k hk,
              )
              refl,
          refl,
        )
      ]

take-append-drop : (n : ℕ) (xs : List ℕ) → take n xs ++ drop n xs ≡ xs
take-append-drop zero xs = refl
take-append-drop (suc n) [] = refl
take-append-drop (suc n) (x ∷ xs) = ap (λ l. x ∷ l) (take-append-drop n xs)

-- The bytes of the packet, and that the stream began with them.
abbrev pub CameFrom : List ℕ → JdwpPacket → List ℕ → Type 0
CameFrom stream packet rest =
    (bytes : List ℕ) × (to_bytes packet ≡ ok bytes) × (stream ≡ bytes ++ rest)

Rebuilds : List ℕ → Result (JdwpPacket × List ℕ) → Type 0
Rebuilds stream (ok (packet, rest)) = CameFrom stream packet rest
Rebuilds stream (err e) = Unit {0}

module _ (a b c d e f g h i j k : ℕ) (tail : List ℕ)
    (bytes : IsBytes (a ∷ b ∷ c ∷ d ∷ e ∷ f ∷ g ∷ h ∷ i ∷ j ∷ k ∷ [])) where
  from_parts-Rebuilds :
      (payload left : List ℕ) (r : Result (JdwpPacket × List ℕ))
      → payload ++ left ≡ tail
      → WritesBack a b c d e f g h i j k payload left r
      → Rebuilds (a ∷ b ∷ c ∷ d ∷ e ∷ f ∷ g ∷ h ∷ i ∷ j ∷ k ∷ tail) r
  unfolding Rebuilds
  from_parts-Rebuilds payload left (ok (packet, rest)) parts (written, same) = (
    a ∷ b ∷ c ∷ d ∷ e ∷ f ∷ g ∷ h ∷ i ∷ j ∷ k ∷ payload,
    written,
    ap (λ l. a ∷ b ∷ c ∷ d ∷ e ∷ f ∷ g ∷ h ∷ i ∷ j ∷ k ∷ l)
        (sym parts ∙ ap (λ l. payload ++ l) (sym same)),
  )
  from_parts-Rebuilds payload left (err x) parts w = tt

  after_header-Rebuilds :
      Rebuilds
        (a ∷ b ∷ c ∷ d ∷ e ∷ f ∷ g ∷ h ∷ i ∷ j ∷ k ∷ tail)
        (after_header (a ∷ b ∷ c ∷ d ∷ e ∷ f ∷ g ∷ h ∷ i ∷ j ∷ k ∷ [], tail))
  unfolding after_header Rebuilds
  after_header-Rebuilds =
      let size : ℕ = field_at 0 4 (a ∷ b ∷ c ∷ d ∷ e ∷ f ∷ g ∷ h ∷ i ∷ j ∷ k ∷ []) in
      elim (Bool-cases (ltb size 11)) [
        | inl small ↦ rw (after_header, small) tt
        | inr large ↦ elim (Bool-cases (leb (size - 11) (length tail))) [
          | inl whole ↦
              rw (after_header, large, whole)
                (from_parts-Rebuilds (take (size - 11) tail) (drop (size - 11) tail) _
                  (take-append-drop (size - 11) tail)
                  (from_parts-WritesBack a b c d e f g h i j k (take (size - 11) tail)
                    (drop (size - 11) tail) bytes (sized size large whole)))
          | inr short ↦ rw (after_header, large, short) tt
        ]
      ]
    where
      sized :
          (n : ℕ)
          → ltb n 11 ≡ false
          → leb (n - 11) (length tail) ≡ true
          → n ≡ 11 + length (take (n - 11) tail)
      sized n large whole =
          let low : 11 ≤ n = ground arith in
          omega (arith, low, (length-take-drop (n - 11) tail (leb→le _ _ whole)).0)

deserialize-Rebuilds : (stream : List ℕ) → IsBytes stream → Rebuilds stream (deserialize stream)
unfolding deserialize Rebuilds
deserialize-Rebuilds (a ∷ b ∷ c ∷ d ∷ e ∷ f ∷ g ∷ h ∷ i ∷ j ∷ k ∷ tail) bs =
    let (ha, (hb, (hc, (hd, (he, (hf, (hg, (hh, (hi, (hj, (hk, _))))))))))) = bs in
    rw
      (
        deserialize,
        le→leb 11 (length (a ∷ b ∷ c ∷ d ∷ e ∷ f ∷ g ∷ h ∷ i ∷ j ∷ k ∷ tail)) (omega arith),
      )
      (after_header-Rebuilds a b c d e f g h i j k tail
        (ha, (hb, (hc, (hd, (he, (hf, (hg, (hh, (hi, (hj, (hk, tt))))))))))))
deserialize-Rebuilds _ bs = tt

-- A packet that was read from a stream of bytes writes bytes, and the stream was these bytes and then the
-- rest: nothing of the header and the payload is lost or changed, and nothing more is taken.
pub to_bytes-deserialize :
    (stream rest : List ℕ) (packet : JdwpPacket)
    → IsBytes stream
    → deserialize stream ≡ ok (packet, rest)
    → CameFrom stream packet rest
unfolding Rebuilds
to_bytes-deserialize stream rest packet bs h =
    subst (Rebuilds stream) h (deserialize-Rebuilds stream bs)
