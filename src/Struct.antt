-- ===== src/Struct.antt =====
-- The part of Python's `struct` module and of its byte strings that src/jdwpy/io.py,
-- src/jdwpy/packet.py and src/jdwpy/spec.py use: big-endian integers of w bytes, and reads at an
-- offset. A byte string is a list of numbers below 256, an offset is a Python integer.
pub mod BigEndian
pub mod Offsets
use jdwpy.Prelude.{
  List, Option, [], drop, get_elem?, if◌then◌else◌, inl, inr, leb, length, ltb, min, none, refl,
  some, suc, take, zero, ℕ, ◌%◌, ◌*◌, ◌++◌, ◌+◌, ◌-◌, ◌/◌, ◌^◌, ◌∷◌, ◌≡◌, ◌⊎◌,
}
use jdwpy.Prelude.Int.{negsuc, pos, ℤ}

-- The exceptions that the modelled code can raise.
pub data Error : Type 0 where
  index_error struct_error value_error unicode_error overflow_error runtime_error incomplete_read :
      Error

pub data Result {ℓ} (A : Type ℓ) : Type ℓ where
  ok : A → Result A
  err : Error → Result A

-- To split on a result and keep the equation.
pub Result-cases {ℓ} :
    {A : Type ℓ} (r : Result A) → ((a : A) × (r ≡ ok a)) ⊎ ((e : Error) × (r ≡ err e))
Result-cases (ok a) = inl (a, refl)
Result-cases (err e) = inr (e, refl)

-- The w low bytes of n, the highest first.
unfoldable pub big_endian : ℕ → ℕ → List ℕ
big_endian zero n = []
big_endian (suc w) n = big_endian w (n / 256) ++ (n % 256) ∷ []

-- The number that the bytes show, above those that `acc` has read.
abbrev pub from_bytes_onto : ℕ → List ℕ → ℕ
from_bytes_onto acc [] = acc
from_bytes_onto acc (b ∷ bs) = from_bytes_onto (acc * 256 + b) bs

unfoldable pub from_big_endian : List ℕ → ℕ
from_big_endian bs = from_bytes_onto 0 bs

-- `struct.pack` of one unsigned integer: ">I" at 4 bytes, ">Q" at 8, ">H" at 2, "B" at 1.
unfoldable pub pack_unsigned : ℕ → ℤ → Result (List ℕ)
pack_unsigned w (pos n) = if ltb n (256 ^ w) then ok (big_endian w n) else err struct_error
pack_unsigned w (negsuc n) = err struct_error

-- `struct.pack` of one signed integer, in two's complement: ">i" at 4 bytes, ">q" at 8.
unfoldable pub pack_signed : ℕ → ℤ → Result (List ℕ)
pack_signed w (pos n) = if ltb n (256 ^ w / 2) then ok (big_endian w n) else err struct_error
pack_signed w (negsuc n) =
    if ltb n (256 ^ w / 2) then ok (big_endian w (256 ^ w - 1 - n)) else err struct_error

-- The signed reading of a w-byte pattern.
unfoldable pub to_signed : ℕ → ℕ → ℤ
to_signed w u = if ltb u (256 ^ w / 2) then pos u else negsuc (256 ^ w - 1 - u)

-- The bytes that `struct.unpack_from` reads for a format of w bytes. A negative offset counts from
-- the end of the buffer.
unfoldable pub unpack_from : ℕ → List ℕ → ℤ → Result (List ℕ)
unpack_from w buffer (pos o) =
    if leb (o + w) (length buffer) then ok (take w (drop o buffer)) else err struct_error
unpack_from w buffer (negsuc k) =
    if ltb (suc k) w
    then err struct_error
    else if ltb (length buffer) (suc k)
    then err struct_error
    else ok (take w (drop (length buffer - suc k) buffer))

or_index_error : Option ℕ → Result ℕ
or_index_error none = err index_error
or_index_error (some b) = ok b

-- `buffer[i]`: a negative index counts from the end.
unfoldable pub index : List ℕ → ℤ → Result ℕ
unfolding or_index_error
index buffer (pos i) = or_index_error (get_elem? buffer i)
index buffer (negsuc k) =
    if leb (suc k) (length buffer)
    then or_index_error (get_elem? buffer (length buffer - suc k))
    else err index_error

-- A slice bound, brought into the buffer.
unfoldable pub clamp : List ℕ → ℤ → ℕ
clamp buffer (pos i) = min i (length buffer)
clamp buffer (negsuc k) = length buffer - suc k

-- `buffer[start:stop]` never fails: it is cut to what the buffer holds.
unfoldable pub slice : List ℕ → ℤ → ℤ → List ℕ
unfolding clamp
slice buffer start stop =
    take (clamp buffer stop - clamp buffer start) (drop (clamp buffer start) buffer)
