-- ===== src/Commands/ArrayReference/ElementTag.antt =====
-- src/jdwpy/commands/array_reference.py: the tag of the values that SetValues reads. No reader that
-- `from_bytes` makes has the attribute `array_element_tag`.
use jdwpy.Prelude.{List, false, inl, inr, none, refl, ℕ, ◌++◌, ◌≡◌, ◌≢◌}
use jdwpy.Struct.{Result, Result-cases, err, ok, unpack_from}
use jdwpy.Constants.Tag.{int}
use jdwpy.Spec.{IdSizesSpec, JdwpValue, size}
use jdwpy.Io.{JdwpReader, Platform, Read, read_list, return, ◌>>=◌}
use jdwpy.Io.Reader.{read_id, read_int, read_object_id, read_signed, read_unsigned, unpack}
use jdwpy.Commands.Base.{Decodes, RoundTrip-Decodes, from_bytes, to_bytes}
use jdwpy.Commands.ArrayReference.Region.{deserialize_element}
use jdwpy.Commands.ArrayReference.SetValues.{
  IsSetValuesCommand, RoundTrip-set_values_command, RoundTrip-told_tag, SetValuesCommand,
  deserialize_set_values_command, get_element_tag, read_set_values, serialize_set_values_command,
}
use mathlib.Core.Path.{subst}

-- What the reader and the value read meet, if the read does not raise.
abbrev Ensures : {A : Type 0} → (A → JdwpReader → Type 0) → Result (A × JdwpReader) → Type 0
Ensures P (ok (a, rd)) = P a rd
Ensures P (err e) = Unit {0}

Ensures-bind :
    {A B : Type 0} (P : A → JdwpReader → Type 0) (Q : B → JdwpReader → Type 0) (p : Platform)
    (m : Read A) (f : A → Read B) (rd : JdwpReader)
    → Ensures P (m p rd)
    → ((a : A) (rd' : JdwpReader) → P a rd' → Ensures Q (f a p rd'))
    → Ensures Q ((m >>= f) p rd)
unfolding ◌>>=◌
Ensures-bind {A = A} {B = B} P Q p m f rd h k = go (m p rd) h
  where
    go :
        (r : Result (A × JdwpReader))
        → Ensures P r
        → Ensures Q (elim r [ ok (a, rd') ↦ f a p rd' | err e ↦ err e ])
    go (ok (a, rd')) h = k a rd' h
    go (err e) h = tt

-- The reader has no attribute for the tag.
abbrev IsUntold : {A : Type 0} → A → JdwpReader → Type 0
IsUntold a rd = rd.array_element_tag ≡ none

module _ (p : Platform) (rd : JdwpReader) (untold : rd.array_element_tag ≡ none) where
  unpack-IsUntold : (w : ℕ) → Ensures IsUntold (unpack w p rd)
  unfolding unpack
  unpack-IsUntold w = elim (Result-cases (unpack_from w rd.buffer rd.offset)) [
    | inl (bytes, e) ↦ rw (unpack, e) untold
    | inr (x, e) ↦ rw (unpack, e) tt
  ]

  read_signed-IsUntold : (w : ℕ) → Ensures IsUntold (read_signed w p rd)
  unfolding read_signed return
  read_signed-IsUntold w =
      Ensures-bind IsUntold IsUntold p (unpack w) _ rd (unpack-IsUntold w) (λ a rd' h. h)

  read_unsigned-IsUntold : (w : ℕ) → Ensures IsUntold (read_unsigned w p rd)
  unfolding read_unsigned return
  read_unsigned-IsUntold w =
      Ensures-bind IsUntold IsUntold p (unpack w) _ rd (unpack-IsUntold w) (λ a rd' h. h)

  get_element_tag-int : Ensures (λ tag rd'. tag ≡ int) (get_element_tag p rd)
  unfolding get_element_tag
  get_element_tag-int = rw (get_element_tag, untold) refl

module _ (p : Platform) (rd : JdwpReader) (untold : rd.array_element_tag ≡ none) where
  deserialize_set_values_command-int :
      Ensures (λ c rd'. c.tag ≡ int) (deserialize_set_values_command p rd)
  unfolding deserialize_set_values_command read_set_values read_object_id read_id read_int return
  deserialize_set_values_command-int =
      Ensures-bind IsUntold _ p _ _ rd
        (read_unsigned-IsUntold p rd untold (size rd.spec.object_id_struct))
        λ a rd1 h1. Ensures-bind IsUntold _ p _ _ rd1 (read_signed-IsUntold p rd1 h1 4) λ b rd2 h2.
          Ensures-bind IsUntold _ p _ _ rd2 (read_signed-IsUntold p rd2 h2 4) λ n rd3 h3.
            Ensures-bind _ _ p _ _ rd3 (get_element_tag-int p rd3 h3) λ tag rd4 same.
              Ensures-bind (λ vs rd'. Unit {0}) _ p _ _ rd4
                (anything (read_list n (deserialize_element false tag) p rd4)) λ vs rd5 _. same
    where
      anything : (r : Result (List JdwpValue × JdwpReader)) → Ensures (λ vs rd'. Unit {0}) r
      anything (ok (vs, rd')) = tt
      anything (err e) = tt

HoldsOf : {A : Type 0} → (A → Type 0) → Result A → Type 0
HoldsOf P (ok a) = P a
HoldsOf P (err e) = ⊥

Ensures-from_bytes :
    {A : Type 0} (P : A → Type 0) (r : Result (A × JdwpReader)) (c : A)
    → Ensures (λ a rd. P a) r
    → elim r [ ok (a, rd) ↦ ok a | err e ↦ err e ] ≡ ok c
    → P c
unfolding HoldsOf
Ensures-from_bytes P (ok (a, rd)) c h e = subst (HoldsOf P) e h
Ensures-from_bytes P (err x) c h e = cc

set_values_command-int :
    (p : Platform) (s : IdSizesSpec) (bytes : List ℕ) (c : SetValuesCommand)
    → from_bytes p s deserialize_set_values_command bytes ≡ ok c
    → c.tag ≡ int
unfolding from_bytes
set_values_command-int p s bytes c h =
    Ensures-from_bytes (λ x. x.tag ≡ int) (deserialize_set_values_command p _) c
      (deserialize_set_values_command-int p _ refl) h

-- An ArrayReference.SetValues command of ints, whose fields fit their widths, has bytes, and they are read
-- as the command, also where more bytes follow.
pub set_values_command-Decodes :
    (p : Platform) (s : IdSizesSpec) (c : SetValuesCommand)
    → IsSetValuesCommand p s c
    → c.tag ≡ int
    → Decodes p s (serialize_set_values_command c) deserialize_set_values_command c
set_values_command-Decodes p s c h e = RoundTrip-Decodes (RoundTrip-set_values_command h e)

-- An ArrayReference.SetValues command of any other tag, whose fields and values fit their widths, has bytes
-- too, and these are not read as the command, whatever follows them.
pub set_values_command-lost :
    (p : Platform) (s : IdSizesSpec) (c : SetValuesCommand)
    → IsSetValuesCommand p s c
    → c.tag ≢ int
    → (bytes : List ℕ) × (to_bytes p s (serialize_set_values_command c) ≡ ok bytes)
      × ((rest : List ℕ) → from_bytes p s deserialize_set_values_command (bytes ++ rest) ≢ ok c)
set_values_command-lost p s c h other =
    let (bytes, written, _) = RoundTrip-Decodes (RoundTrip-told_tag {p = p} {s = s} {c = c} h) in
    (bytes, written, λ rest e. other (set_values_command-int p s (bytes ++ rest) c e))
