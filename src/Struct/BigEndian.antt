-- ===== src/Struct/BigEndian.antt =====
-- Packing and unpacking are inverse on the integers that fit (src/jdwpy/io.py, src/jdwpy/packet.py).
use jdwpy.Prelude.{
  All, All-append, List, [], arith, length, length-append, refl, suc, zero, ℕ, ◌%◌, ◌*◌, ◌++◌, ◌+◌,
  ◌/◌, ◌<◌, ◌^◌, ◌∙◌, ◌∷◌, ◌≡◌,
}
use jdwpy.Struct.{big_endian, from_big_endian, from_bytes_onto}
use native.Mathlib.Nat.{pow-suc}

abbrev pub IsByte : ℕ → Type 0
IsByte b = b < 256

pub length-big_endian : (w n : ℕ) → length (big_endian w n) ≡ w
unfolding big_endian
length-big_endian zero n = refl
length-big_endian (suc w) n = rw (length-append {0}) (omega (arith, length-big_endian w (n / 256)))

pub big_endian-IsByte : (w n : ℕ) → All IsByte (big_endian w n)
unfolding big_endian
big_endian-IsByte zero n = tt
big_endian-IsByte (suc w) n =
    All-append IsByte (big_endian w (n / 256)) ((n % 256) ∷ []) (big_endian-IsByte w (n / 256))
      (omega arith)

from_bytes_onto-append :
    (acc : ℕ) (xs : List ℕ) (b : ℕ)
    → from_bytes_onto acc (xs ++ b ∷ []) ≡ from_bytes_onto acc xs * 256 + b
from_bytes_onto-append acc [] b = refl
from_bytes_onto-append acc (x ∷ xs) b = from_bytes_onto-append (acc * 256 + x) xs b

pub from_big_endian-big_endian : (w n : ℕ) → n < 256 ^ w → from_big_endian (big_endian w n) ≡ n
unfolding from_big_endian big_endian
from_big_endian-big_endian zero n h = omega arith
from_big_endian-big_endian (suc w) n h =
    from_bytes_onto-append 0 (big_endian w (n / 256)) (n % 256)
    ∙ rw (from_big_endian-big_endian w (n / 256) (omega (arith, pow-suc 256 w))) (omega arith)
