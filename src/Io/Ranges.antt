-- ===== src/Io/Ranges.antt =====
-- The conditions under which the integers, identifiers and strings of src/jdwpy/io.py can be
-- written, and that packing and unpacking are inverse under them.
use jdwpy.Prelude.{List, ap, arith, length, lt→ltb, ℕ, ◌-◌, ◌/◌, ◌<◌, ◌^◌, ◌∙◌, ◌≡◌}
use jdwpy.Prelude.Int.{negsuc, pos, ℤ}
use jdwpy.Struct.{big_endian, from_big_endian, ok, pack_signed, pack_unsigned, to_signed}
use jdwpy.Struct.BigEndian.{from_big_endian-big_endian, length-big_endian}
use jdwpy.Utf8.{Str, encode}
use jdwpy.Utf8.RoundTrip.{IsText}
use jdwpy.Spec.{IdStruct, size, struct_32, struct_64}

-- The range of a signed integer of w bytes.
abbrev pub IsSigned : ℕ → ℤ → Type 0
IsSigned w (pos n) = n < 256 ^ w / 2
IsSigned w (negsuc n) = n < 256 ^ w / 2

abbrev pub IsUnsigned : ℕ → ℤ → Type 0
IsUnsigned w (pos n) = n < 256 ^ w
IsUnsigned w (negsuc n) = ⊥

abbrev pub IsInt : ℤ → Type 0
IsInt = IsSigned 4

abbrev pub IsLong : ℤ → Type 0
IsLong = IsSigned 8

-- An identifier of the struct's size.
abbrev pub IsId : IdStruct → ℤ → Type 0
IsId struct_32 v = IsUnsigned 4 v
IsId struct_64 v = IsUnsigned 8 v

-- A text whose bytes can be counted in an int.
pub record IsString (s : Str) : Type 0 where
  pub is_text : IsText s
  pub short : (bytes : List ℕ) → encode s ≡ ok bytes → length bytes < 2147483648

signed_pattern : ℕ → ℤ → ℕ
signed_pattern w (pos n) = n
signed_pattern w (negsuc n) = 256 ^ w - 1 - n

pack_signed-ok :
    (w : ℕ) (v : ℤ) → IsSigned w v → pack_signed w v ≡ ok (big_endian w (signed_pattern w v))
unfolding pack_signed signed_pattern
pack_signed-ok w (pos n) h = rw (lt→ltb _ _ h)
pack_signed-ok w (negsuc n) h = rw (lt→ltb _ _ h)

signed_pattern-lt : (w : ℕ) (v : ℤ) → IsSigned w v → signed_pattern w v < 256 ^ w
unfolding signed_pattern
signed_pattern-lt w (pos n) h = omega arith
signed_pattern-lt w (negsuc n) h = omega arith

to_signed-signed_pattern : (w : ℕ) (v : ℤ) → IsSigned w v → to_signed w (signed_pattern w v) ≡ v
unfolding signed_pattern to_signed
to_signed-signed_pattern w (pos n) h = rw (lt→ltb _ _ h)
to_signed-signed_pattern w (negsuc n) h = ground arith

-- Packing and unpacking a signed integer of w bytes.
pub unpack-pack_signed :
    (w : ℕ) (v : ℤ)
    → IsSigned w v
    → (bytes : List ℕ) × (pack_signed w v ≡ ok bytes)
      × (length bytes ≡ w)
      × (to_signed w (from_big_endian bytes) ≡ v)
unpack-pack_signed w v h = (
  big_endian w (signed_pattern w v),
  pack_signed-ok w v h,
  length-big_endian w (signed_pattern w v),
  ap (to_signed w) (from_big_endian-big_endian w (signed_pattern w v) (signed_pattern-lt w v h))
      ∙ to_signed-signed_pattern w v h,
)

pub unpack-pack_unsigned :
    (w : ℕ) (v : ℤ)
    → IsUnsigned w v
    → (bytes : List ℕ) × (pack_unsigned w v ≡ ok bytes)
      × (length bytes ≡ w)
      × (pos (from_big_endian bytes) ≡ v)
unfolding pack_unsigned
unpack-pack_unsigned w (pos n) h = (
  big_endian w n,
  rw (lt→ltb _ _ h),
  length-big_endian w n,
  ap pos (from_big_endian-big_endian w n h),
)
unpack-pack_unsigned w (negsuc n) h = absurd h

pub IsId-IsUnsigned : (k : IdStruct) (v : ℤ) → IsId k v → IsUnsigned (size k) v
IsId-IsUnsigned struct_32 v h = h
IsId-IsUnsigned struct_64 v h = h
