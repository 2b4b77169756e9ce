-- ===== src/Io/Overrun.antt =====
-- Strings whose length does not fit the buffer (`read_string` of src/jdwpy/io.py): the slice is cut, and
-- the offset moves by the length all the same.
use jdwpy.Prelude.{
  List, [], ap, arith, drop-length, length, length-append, min, none, refl, suc, take, ℕ, ◌++◌, ◌+◌,
  ◌-◌, ◌<◌, ◌∷◌, ◌≡◌, ◌≤◌,
}
use jdwpy.Prelude.Int.{+ℤ-pos, negsuc, pos, ◌+ℤ◌}
use jdwpy.Struct.{ok, slice}
use jdwpy.Utf8.{Str, decode}
use jdwpy.Spec.{IdSizesSpec}
use jdwpy.Io.{JdwpReader, Platform}
use jdwpy.Io.Reader.{read_text}
use jdwpy.Io.Codec.{cursor}

take_all : (xs : List ℕ) → take (length xs) xs ≡ xs
take_all [] = refl
take_all (x ∷ xs) = ap (λ t. x ∷ t) (take_all xs)

slice-past_end :
    (front rest : List ℕ) (n : ℕ)
    → length rest < n
    → slice (front ++ rest) (pos (length front)) (pos (length front) +ℤ pos n) ≡ rest
unfolding slice
slice-past_end front rest n long =
    rw (+ℤ-pos, stop, start, drop-length front rest, left, take_all rest)
  where
    start : min (length front) (length (front ++ rest)) ≡ length front
    start = omega (arith, length-append front rest)

    stop : min (length front + n) (length (front ++ rest)) ≡ length front + length rest
    stop = omega (arith, length-append front rest)

    left : length front + length rest - length front ≡ length rest
    left = omega arith

decode-nil : decode [] ≡ ok []
unfolding decode
decode-nil = refl

back : (n k : ℕ) → suc k ≤ n → pos n +ℤ negsuc k ≡ pos (n - suc k)
unfolding ◌+ℤ◌
back n k h = ground arith

slice_backwards :
    (front rest : List ℕ) (k : ℕ)
    → suc k ≤ length front
    → slice (front ++ rest) (pos (length front)) (pos (length front - suc k)) ≡ []
unfolding slice
slice_backwards front rest k h = rw (empty)
  where
    empty :
        min (length front - suc k) (length (front ++ rest))
          - min (length front) (length (front ++ rest))
        ≡ 0
    empty = omega (arith, length-append front rest)

-- A string whose length goes past the end of the buffer raises nothing where the bytes left are UTF-8:
-- it is read as the text of those, and the offset then stands past the end.
pub read_text-past_end :
    (p : Platform) (s : IdSizesSpec) (front rest : List ℕ) (n : ℕ) (text : Str)
    → length rest < n
    → decode rest ≡ ok text
    → (rd : JdwpReader) × (read_text (pos n) p (cursor s front rest) ≡ ok (text, rd))
      × (rd.offset ≡ pos (length front + n))
      × (length rd.buffer < length front + n)
unfolding read_text
read_text-past_end p s front rest n text long e = (
  record {
    buffer = front ++ rest;
    spec = s;
    offset = pos (length front) +ℤ pos n;
    array_element_tag = none;
  },
  rw (read_text, slice-past_end front rest n long, e),
  +ℤ-pos (length front) n,
  omega (arith, length-append front rest),
)

-- A string whose length is negative, by at most the number of bytes in front of the reader, is read as the
-- empty text, and the offset moves back by it.
pub read_text-negative :
    (p : Platform) (s : IdSizesSpec) (front rest : List ℕ) (k : ℕ)
    → suc k ≤ length front
    → read_text (negsuc k) p (cursor s front rest)
      ≡ ok (
        [],
        record {
          buffer = front ++ rest;
          spec = s;
          offset = pos (length front - suc k);
          array_element_tag = none;
        },
      )
unfolding read_text
read_text-negative p s front rest k h = rw (
  read_text,
  back (length front) k h,
  slice_backwards front rest k h,
  decode-nil,
  back (length front) k h,
)
