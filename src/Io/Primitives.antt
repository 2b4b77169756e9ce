-- ===== src/Io/Primitives.antt =====
-- Round trips of the integers, identifiers, strings and booleans of src/jdwpy/io.py.
use jdwpy.Prelude.{
  Bool, List, [], append_assoc, arith, false, length, length-append, refl, true, ℕ, ◌++◌, ◌<◌, ◌∷◌,
  ◌≡◌,
}
use jdwpy.Prelude.Int.{+ℤ-pos, pos, ℤ}
use jdwpy.Struct.{Result, from_big_endian, ok, pack_signed, pack_unsigned, to_signed}
use jdwpy.Struct.Offsets.{index-length, slice-length, unpack_from-length}
use jdwpy.Utf8.{Str, decode}
use jdwpy.Utf8.RoundTrip.{decode-encode}
use jdwpy.Spec.{IdSizesSpec, IdStruct, size}
use jdwpy.Io.{Platform, return, ◌>>=◌}
use jdwpy.Io.Ranges.{
  IsId, IsId-IsUnsigned, IsInt, IsLong, IsSigned, IsString, IsUnsigned, unpack-pack_signed,
  unpack-pack_unsigned,
}
use jdwpy.Io.Reader.{
  advance, read_boolean, read_byte, read_field_id, read_frame_id, read_id, read_int, read_long,
  read_method_id, read_object_id, read_reference_type_id, read_signed, read_string, read_text,
  read_unsigned, truth, unpack,
}
use jdwpy.Io.Writer.{
  extend, extend_result, low_byte, write_boolean, write_byte, write_encoded, write_field_id,
  write_frame_id, write_id, write_int, write_long, write_method_id, write_object_id,
  write_reference_type_id, write_signed, write_string, write_unsigned,
}
use jdwpy.Io.Codec.{Reads, RoundTrip, RoundTrip-last, RoundTrip-seq, Writes, cursor}
use mathlib.Core.Path.{subst}
use native.Mathlib.Nat.{mod-eq_of_lt}

-- The offset after `n` bytes of the rest.
cursor-advance :
    (s : IdSizesSpec) (front bytes rest : List ℕ)
    → advance (pos (length bytes)) (cursor s front (bytes ++ rest)) ≡ cursor s (front ++ bytes) rest
cursor-advance s front bytes rest =
    rw (
      +ℤ-pos (length front) (length bytes),
      append_assoc front bytes rest,
      length-append front bytes,
    )

module _ {p : Platform} {s : IdSizesSpec} where
  Writes-extend : (bytes : List ℕ) → Writes p s (extend bytes) bytes
  unfolding extend
  Writes-extend bytes = record { appends = λ out. refl }

  Reads-unpack_all : (bytes : List ℕ) → Reads p s (unpack (length bytes)) bytes bytes
  unfolding unpack
  Reads-unpack_all bytes = record {
    takes = λ front rest.
        rw (unpack, unpack_from-length front bytes rest, cursor-advance s front bytes rest);
  }

  Reads-unpack : (w : ℕ) (bytes : List ℕ) → length bytes ≡ w → Reads p s (unpack w) bytes bytes
  Reads-unpack w bytes e = subst (λ n. Reads p s (unpack n) bytes bytes) e (Reads-unpack_all bytes)

  -- Bytes that were packed, and the number that is computed from them.
  RoundTrip-packed :
      {A : Type 0} (w : ℕ) (packed : Result (List ℕ)) (value : List ℕ → A) (v : A)
      → (bytes : List ℕ) × (packed ≡ ok bytes) × (length bytes ≡ w) × (value bytes ≡ v)
      → RoundTrip p s (extend_result packed) (unpack w >>= λ bytes. return (value bytes)) v
  unfolding extend_result
  RoundTrip-packed w packed value v (bytes, e, sized, back) =
      subst (λ x. RoundTrip p s (extend_result packed) (unpack w >>= λ bs. return (value bs)) x)
        back
        (RoundTrip-last value (record {
          bytes = bytes;
          writes = record { appends = λ out. rw (e, extend_result) };
          reads = Reads-unpack w bytes sized;
        }))

  pub RoundTrip-signed :
      (w : ℕ) (v : ℤ) → IsSigned w v → RoundTrip p s (write_signed w v) (read_signed w) v
  unfolding write_signed read_signed
  RoundTrip-signed w v h =
      RoundTrip-packed w (pack_signed w v) (λ bytes. to_signed w (from_big_endian bytes)) v
        (unpack-pack_signed w v h)

  pub RoundTrip-unsigned :
      (w : ℕ) (v : ℤ) → IsUnsigned w v → RoundTrip p s (write_unsigned w v) (read_unsigned w) v
  unfolding write_unsigned read_unsigned
  RoundTrip-unsigned w v h =
      RoundTrip-packed w (pack_unsigned w v) (λ bytes. pos (from_big_endian bytes)) v
        (unpack-pack_unsigned w v h)

  pub RoundTrip-int : {v : ℤ} → IsInt v → RoundTrip p s (write_int v) read_int v
  unfolding write_int read_int
  RoundTrip-int {v} h = RoundTrip-signed 4 v h

  pub RoundTrip-long : {v : ℤ} → IsLong v → RoundTrip p s (write_long v) read_long v
  unfolding write_long read_long
  RoundTrip-long {v} h = RoundTrip-signed 8 v h

  RoundTrip-id :
      (struct_of : IdSizesSpec → IdStruct) (v : ℤ)
      → IsId (struct_of s) v
      → RoundTrip p s (write_id struct_of v) (read_id struct_of) v
  unfolding write_id read_id
  RoundTrip-id struct_of v h =
      let t : RoundTrip p s (write_unsigned (size (struct_of s)) v)
          (read_unsigned (size (struct_of s))) v =
        RoundTrip-unsigned (size (struct_of s)) v (IsId-IsUnsigned (struct_of s) v h) in
      record {
        bytes = t.bytes;
        writes = record { appends = λ out. t.writes.appends out };
        reads = record { takes = λ front rest. t.reads.takes front rest };
      }

  pub RoundTrip-object_id :
      {v : ℤ} → IsId s.object_id_struct v → RoundTrip p s (write_object_id v) read_object_id v
  unfolding write_object_id read_object_id
  RoundTrip-object_id {v} h = RoundTrip-id (λ t. t.object_id_struct) v h

  pub RoundTrip-reference_type_id :
      {v : ℤ}
      → IsId s.reference_type_id_struct v
      → RoundTrip p s (write_reference_type_id v) read_reference_type_id v
  unfolding write_reference_type_id read_reference_type_id
  RoundTrip-reference_type_id {v} h = RoundTrip-id (λ t. t.reference_type_id_struct) v h

  pub RoundTrip-field_id :
      {v : ℤ} → IsId s.field_id_struct v → RoundTrip p s (write_field_id v) read_field_id v
  unfolding write_field_id read_field_id
  RoundTrip-field_id {v} h = RoundTrip-id (λ t. t.field_id_struct) v h

  pub RoundTrip-method_id :
      {v : ℤ} → IsId s.method_id_struct v → RoundTrip p s (write_method_id v) read_method_id v
  unfolding write_method_id read_method_id
  RoundTrip-method_id {v} h = RoundTrip-id (λ t. t.method_id_struct) v h

  pub RoundTrip-frame_id :
      {v : ℤ} → IsId s.frame_id_struct v → RoundTrip p s (write_frame_id v) read_frame_id v
  unfolding write_frame_id read_frame_id
  RoundTrip-frame_id {v} h = RoundTrip-id (λ t. t.frame_id_struct) v h

  Reads-byte : (b : ℕ) → Reads p s read_byte (b ∷ []) (pos b)
  unfolding read_byte
  Reads-byte b = record {
    takes = λ front rest.
        rw (read_byte, index-length front b rest, cursor-advance s front (b ∷ []) rest);
  }

  -- A number below 256 is written as it is.
  pub RoundTrip-byte : (n : ℕ) → n < 256 → RoundTrip p s (write_byte (pos n)) read_byte (pos n)
  unfolding write_byte low_byte
  RoundTrip-byte n h = record {
    bytes = n ∷ [];
    writes = rw (mod-eq_of_lt h) (Writes-extend (n ∷ []));
    reads = Reads-byte n;
  }

  pub RoundTrip-boolean : {v : Bool} → RoundTrip p s (write_boolean v) read_boolean v
  unfolding write_boolean read_boolean
  RoundTrip-boolean {v = true} =
      RoundTrip-last truth
        (record { bytes = 1 ∷ []; writes = Writes-extend (1 ∷ []); reads = Reads-byte 1 })
  RoundTrip-boolean {v = false} =
      RoundTrip-last truth
        (record { bytes = 0 ∷ []; writes = Writes-extend (0 ∷ []); reads = Reads-byte 0 })

  Reads-text :
      (bytes : List ℕ) (v : Str)
      → decode bytes ≡ ok v
      → Reads p s (read_text (pos (length bytes))) bytes v
  unfolding read_text
  Reads-text bytes v e = record {
    takes = λ front rest.
        rw (read_text, slice-length front bytes rest, e, cursor-advance s front bytes rest);
  }

  pub RoundTrip-string : {v : Str} → IsString v → RoundTrip p s (write_string v) read_string v
  unfolding write_string write_encoded read_string
  RoundTrip-string {v} h =
      let (bytes, encoded, decoded) = decode-encode v h.is_text in
      rw encoded (
        RoundTrip-seq _ (RoundTrip-int (omega (arith, h.short bytes encoded))) (record {
          bytes = bytes;
          writes = Writes-extend bytes;
          reads = Reads-text bytes v decoded;
        }))
