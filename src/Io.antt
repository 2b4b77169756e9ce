-- ===== src/Io.antt =====
-- src/jdwpy/io.py: the reader and the writer, and how their calls are put together. Each call of a
-- method is a function of the object that gives the object after it, or the exception raised. A
-- reader or a writer that has raised is not used again, so nothing of it is kept beside the error.
pub mod Reader
pub mod Writer
pub mod Values
pub mod Dynamic
pub mod Codec
pub mod Ranges
pub mod Overrun
pub mod Primitives
pub mod Fields
use jdwpy.Prelude.{List, Option, [], some, suc, zero, ℕ, ◌%◌, ◌<◌, ◌^◌, ◌∷◌, ◌≡◌, ◌≤◌}
use jdwpy.Prelude.Int.{pos_part, ℤ}
use jdwpy.Struct.{Error, Result, err, ok}
use jdwpy.Spec.{IdSizesSpec}
use jdwpy.Constants.Tag.{JdwpTag}

-- Python's conversion of a float (the pattern of its 64 bits) to a C float (the pattern of its 32
-- bits) and back. `narrow` is none where `struct.pack` raises an OverflowError.
pub record Platform : Type 0 where
  pub narrow : ℕ → Option ℕ
  pub widen : ℕ → ℕ
  -- A single that is not a NaN comes back from its widening.
  pub narrow-widen : (b : ℕ) → b % 2147483648 ≤ 2139095040 → b < 2 ^ 32 → narrow (widen b) ≡ some b
  -- A Python integer as a float, none where it is too large for one.
  pub of_int : ℤ → Option ℕ
  pub widen-lt : (b : ℕ) → b < 2 ^ 32 → widen b < 2 ^ 64

-- The field `data` of the source is `buffer` here. `array_element_tag` is an attribute that code could set
-- on a reader (src/jdwpy/commands/array_reference.py looks for it); a new reader does not have it.
pub record JdwpReader : Type 0 where
  pub buffer : List ℕ
  pub spec : IdSizesSpec
  pub offset : ℤ
  pub array_element_tag : Option JdwpTag

pub record JdwpWriter : Type 0 where
  pub spec : IdSizesSpec
  pub buffer : List ℕ

abbrev pub Read : Type 0 → Type 0
Read A = Platform → JdwpReader → Result (A × JdwpReader)

abbrev pub Write : Type 0
Write = Platform → JdwpWriter → Result JdwpWriter

infixl 5 ◌>>=◌ ◌>>◌
-- One read, and then another that may use its value.
unfoldable pub ◌>>=◌ : {A B : Type 0} → Read A → (A → Read B) → Read B
◌>>=◌ m f p rd = elim (m p rd) [ ok (a, rd') ↦ f a p rd' | err e ↦ err e ]

-- One write, and then another.
unfoldable pub ◌>>◌ : Write → Write → Write
◌>>◌ v w p wr = elim (v p wr) [ ok wr' ↦ w p wr' | err e ↦ err e ]

unfoldable pub return : {A : Type 0} → A → Read A
return a p rd = ok (a, rd)

unfoldable pub raise : {A : Type 0} → Error → Read A
raise e p rd = err e

-- A value that was computed, or the exception that the computation raised.
unfoldable pub lift : {A : Type 0} → Result A → Read A
lift (ok a) p rd = ok (a, rd)
lift (err e) p rd = err e

-- `pass`
unfoldable pub skip : Write
skip p wr = ok wr

unfoldable pub read_times : {A : Type 0} → ℕ → Read A → Read (List A)
unfolding ◌>>=◌ return
read_times zero r = return []
read_times (suc n) r = do x ← r; xs ← read_times n r; return (x ∷ xs)

-- `[r() for _ in range(n)]`: a negative n gives no round.
unfoldable pub read_list : {A : Type 0} → ℤ → Read A → Read (List A)
unfolding read_times
read_list n r = read_times (pos_part n) r

-- `for x in xs: w(x)`
unfoldable pub for_each : {A : Type 0} → List A → (A → Write) → Write
unfolding ◌>>◌ skip
for_each [] w = skip
for_each (x ∷ xs) w = do w x; for_each xs w
