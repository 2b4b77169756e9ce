-- ===== src/Struct/Offsets.antt =====
-- Reads at the offset where a prefix of the buffer ends.
use jdwpy.Prelude.{
  List, arith, drop-length, get_elem?-length, leb, length, length-append, le→leb, min, take-length,
  true, ℕ, ◌++◌, ◌+◌, ◌-◌, ◌∷◌, ◌≡◌,
}
use jdwpy.Prelude.Int.{+ℤ-pos, pos, ◌+ℤ◌}
use jdwpy.Struct.{index, ok, slice, unpack_from}

pub index-length :
    (front : List ℕ) (b : ℕ) (rest : List ℕ) → index (front ++ b ∷ rest) (pos (length front)) ≡ ok b
unfolding index
index-length front b rest = rw (get_elem?-length front b rest)

pub unpack_from-length :
    (front bytes rest : List ℕ)
    → unpack_from (length bytes) (front ++ (bytes ++ rest)) (pos (length front)) ≡ ok bytes
unfolding unpack_from
unpack_from-length front bytes rest =
    rw (fits, drop-length front (bytes ++ rest), take-length bytes rest)
  where
    fits : leb (length front + length bytes) (length (front ++ (bytes ++ rest))) ≡ true
    fits =
        rw (length-append front (bytes ++ rest), length-append bytes rest)
          (le→leb _ _ (omega arith))

pub slice-length :
    (front bytes rest : List ℕ)
    → slice
        (front ++ (bytes ++ rest))
        (pos (length front))
        (pos (length front) +ℤ pos (length bytes))
      ≡ bytes
unfolding slice
slice-length front bytes rest =
    rw (+ℤ-pos, ends, starts, drop-length front (bytes ++ rest), sizes, take-length bytes rest)
  where
    total : length (front ++ (bytes ++ rest)) ≡ length front + (length bytes + length rest)
    total = rw (length-append front (bytes ++ rest), length-append bytes rest)

    starts : min (length front) (length (front ++ (bytes ++ rest))) ≡ length front
    starts = omega (arith, total)

    ends :
        min (length front + length bytes) (length (front ++ (bytes ++ rest)))
        ≡ length front + length bytes
    ends = omega (arith, total)

    sizes : length front + length bytes - length front ≡ length bytes
    sizes = omega arith
