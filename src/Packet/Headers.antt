-- ===== src/Packet/Headers.antt =====
-- The parts of a header that was packed (src/jdwpy/packet.py).
use jdwpy.Prelude.{
  List, ap, drop, drop-length, length, lt→ltb, sym, take, take-length, ℕ, ◌++◌, ◌<◌, ◌^◌, ◌∙◌, ◌≡◌,
}
use jdwpy.Prelude.Int.{pos}
use jdwpy.Struct.{big_endian, from_big_endian, ok, pack_unsigned}
use jdwpy.Struct.BigEndian.{from_big_endian-big_endian, length-big_endian}
use jdwpy.Packet.{field_at}

pub take-drop :
    {A : Type 0} (front mid rest : List A)
    → take (length mid) (drop (length front) (front ++ (mid ++ rest))) ≡ mid
take-drop front mid rest = rw (drop-length front (mid ++ rest), take-length mid rest)

-- A field that was packed in w bytes, behind those in front, is read as the number packed.
pub field_at-big_endian :
    (front : List ℕ) (w n : ℕ) (rest : List ℕ)
    → n < 256 ^ w
    → field_at (length front) w (front ++ (big_endian w n ++ rest)) ≡ n
field_at-big_endian front w n rest h =
    ap (λ k. from_big_endian (take k (drop (length front) (front ++ (big_endian w n ++ rest)))))
      (sym (length-big_endian w n))
    ∙ ap from_big_endian (take-drop front (big_endian w n) rest)
    ∙ from_big_endian-big_endian w n h

pub pack_unsigned-ok : (w n : ℕ) → n < 256 ^ w → pack_unsigned w (pos n) ≡ ok (big_endian w n)
unfolding pack_unsigned
pack_unsigned-ok w n h = rw (lt→ltb n (256 ^ w) h)

unfoldable pub command_header : ℕ → ℕ → ℕ → ℕ → ℕ → List ℕ
command_header size id flags set command =
    big_endian 4 size
    ++ (big_endian 4 id ++ (big_endian 1 flags ++ (big_endian 1 set ++ big_endian 1 command)))

unfoldable pub reply_header : ℕ → ℕ → ℕ → ℕ → List ℕ
reply_header size id flags code =
    big_endian 4 size ++ (big_endian 4 id ++ (big_endian 1 flags ++ big_endian 2 code))
