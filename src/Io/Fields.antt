-- ===== src/Io/Fields.antt =====
-- Round trips of the composite fields of src/jdwpy/io.py: tags, locations, tagged objects, values.
use jdwpy.Prelude.{arith, sym, ℕ, ◌%◌, ◌<◌, ◌^◌, ◌≡◌, ◌≤◌}
use jdwpy.Prelude.Int.{pos, pos_part, ℤ}
use jdwpy.Struct.{Result, ok}
use jdwpy.Constants.Tag.{
  JdwpTag, array, boolean, byte, char, class_loader, class_object, double, float, int, long, object,
  short, string, tag_value, thread, thread_group, to_tag, to_tag-value, void,
}
use jdwpy.Constants.TypeTag.{JdwpTypeTag, to_type_tag, to_type_tag-value, type_tag_value}
use jdwpy.Spec.{IdSizesSpec, JdwpValue, Location, Payload, TaggedObjectId}
use jdwpy.Io.{Platform, lift, return, ◌>>=◌}
use jdwpy.Io.Ranges.{IsId, IsInt, IsLong, IsSigned, IsUnsigned}
use jdwpy.Io.Reader.{
  read_byte, read_int, read_location, read_tag, read_tagged_object, read_type_tag, read_unsigned,
}
use jdwpy.Io.Writer.{
  write_byte, write_int, write_location, write_tag, write_tagged_object, write_type_tag,
  write_unsigned,
}
use jdwpy.Io.Values.{
  pack_float, read_untagged_value, read_value, unpack_double, unpack_float, write_untagged_value,
  write_value,
}
use jdwpy.Io.Codec.{
  >>=-ok, RoundTrip, RoundTrip-last, RoundTrip-lift, RoundTrip-return, RoundTrip-seq,
}
use jdwpy.Io.Primitives.{
  RoundTrip-boolean, RoundTrip-byte, RoundTrip-int, RoundTrip-long, RoundTrip-method_id,
  RoundTrip-object_id, RoundTrip-reference_type_id, RoundTrip-signed, RoundTrip-unsigned,
}
use mathlib.Core.Path.{subst}

abbrev pub IsLocation : IdSizesSpec → Location → Type 0
IsLocation s v =
    IsId s.reference_type_id_struct v.class_id
    × IsId s.method_id_struct v.method_id
    × IsLong v.index

abbrev pub IsTaggedObject : IdSizesSpec → TaggedObjectId → Type 0
IsTaggedObject s v = IsId s.object_id_struct v.object_id

-- A float that is a single, and no NaN.
abbrev pub IsSingle : Platform → ℕ → Type 0
IsSingle p v = (b : ℕ) × (b < 2 ^ 32) × (b % 2147483648 ≤ 2139095040) × (v ≡ p.widen b)

-- What the tag's format can hold.
abbrev pub IsPayload : Platform → IdSizesSpec → (tag : JdwpTag) → Payload tag → Type 0
IsPayload p s byte v = IsSigned 1 v
IsPayload p s char v = IsUnsigned 2 v
IsPayload p s float v = IsSingle p v
IsPayload p s double v = v < 2 ^ 64
IsPayload p s int v = IsInt v
IsPayload p s long v = IsLong v
IsPayload p s short v = IsSigned 2 v
IsPayload p s void v = Unit {0}
IsPayload p s boolean v = Unit {0}
IsPayload p s array v = IsId s.object_id_struct v
IsPayload p s object v = IsId s.object_id_struct v
IsPayload p s string v = IsId s.object_id_struct v
IsPayload p s thread v = IsId s.object_id_struct v
IsPayload p s thread_group v = IsId s.object_id_struct v
IsPayload p s class_loader v = IsId s.object_id_struct v
IsPayload p s class_object v = IsId s.object_id_struct v

abbrev pub IsValue : Platform → IdSizesSpec → JdwpValue → Type 0
IsValue p s v = IsPayload p s v.tag v.value

tag_value-lt : (t : JdwpTag) → tag_value t < 256
unfolding tag_value
tag_value-lt array = omega arith
tag_value-lt _ = omega arith

type_tag_value-lt : (t : JdwpTypeTag) → type_tag_value t < 256
unfolding type_tag_value
type_tag_value-lt JdwpTypeTag.class = omega arith
type_tag_value-lt _ = omega arith

module _ {p : Platform} {s : IdSizesSpec} where
  -- A member of an enumeration as one byte.
  pub RoundTrip-member :
      {A : Type 0} (value : A → ℕ) (to : ℤ → Result A) (t : A)
      → value t < 256
      → to (pos (value t)) ≡ ok t
      → RoundTrip p s (write_byte (pos (value t))) (read_byte >>= λ n. lift (to n)) t
  RoundTrip-member value to t h e = RoundTrip-lift to t (RoundTrip-byte (value t) h) e

  -- A member of an enumeration as an int.
  pub RoundTrip-int_member :
      {A : Type 0} (value : A → ℕ) (to : ℤ → Result A) (t : A)
      → value t < 256
      → to (pos (value t)) ≡ ok t
      → RoundTrip p s (write_int (pos (value t))) (read_int >>= λ n. lift (to n)) t
  RoundTrip-int_member value to t h e = RoundTrip-lift to t (RoundTrip-int (omega arith)) e

  pub RoundTrip-tag : {t : JdwpTag} → RoundTrip p s (write_tag t) read_tag t
  unfolding read_tag
  RoundTrip-tag {t} = RoundTrip-member tag_value to_tag t (tag_value-lt t) (to_tag-value t)

  pub RoundTrip-type_tag : {t : JdwpTypeTag} → RoundTrip p s (write_type_tag t) read_type_tag t
  unfolding read_type_tag
  RoundTrip-type_tag {t} =
      RoundTrip-member type_tag_value to_type_tag t (type_tag_value-lt t) (to_type_tag-value t)

  pub RoundTrip-location :
      {v : Location} → IsLocation s v → RoundTrip p s (write_location v) read_location v
  unfolding write_location read_location
  RoundTrip-location (c, m, i) = RoundTrip-seq _ RoundTrip-type_tag (
      RoundTrip-seq _ (RoundTrip-reference_type_id c)
        (RoundTrip-seq _ (RoundTrip-method_id m) (RoundTrip-last _ (RoundTrip-long i))))

  pub RoundTrip-tagged_object :
      {v : TaggedObjectId}
      → IsTaggedObject s v
      → RoundTrip p s (write_tagged_object v) read_tagged_object v
  unfolding write_tagged_object read_tagged_object
  RoundTrip-tagged_object h =
      RoundTrip-seq _ RoundTrip-tag (RoundTrip-last _ (RoundTrip-object_id h))

  RoundTrip-double : (v : ℕ) → v < 2 ^ 64 → RoundTrip p s (write_unsigned 8 (pos v)) unpack_double v
  unfolding unpack_double
  RoundTrip-double v h = RoundTrip-last pos_part (RoundTrip-unsigned 8 (pos v) h)

  RoundTrip-single :
      (b : ℕ)
      → b < 2 ^ 32
      → b % 2147483648 ≤ 2139095040
      → RoundTrip p s (pack_float (p.widen b)) unpack_float (p.widen b)
  unfolding pack_float unpack_float return
  RoundTrip-single b h number =
      let t : RoundTrip p s (write_unsigned 4 (pos b)) (read_unsigned 4) (pos b) =
        RoundTrip-unsigned 4 (pos b) h in
      record {
        bytes = t.bytes;
        writes = record {
          appends = λ out. rw (pack_float, p.narrow-widen b number h) (t.writes.appends out);
        };
        reads = record {
          takes = λ front rest. >>=-ok (read_unsigned 4) _ (t.reads.takes front rest);
        };
      }

  pub RoundTrip-untagged_value :
      (tag : JdwpTag) (v : Payload tag)
      → IsPayload p s tag v
      → RoundTrip p s (write_untagged_value tag v) (read_untagged_value tag) v
  unfolding write_untagged_value read_untagged_value
  RoundTrip-untagged_value byte v h = RoundTrip-signed 1 v h
  RoundTrip-untagged_value char v h = RoundTrip-unsigned 2 v h
  RoundTrip-untagged_value float v (b, small, number, e) =
      subst (λ x. RoundTrip p s (pack_float x) unpack_float x) (sym e)
        (RoundTrip-single b small number)
  RoundTrip-untagged_value double v h = RoundTrip-double v h
  RoundTrip-untagged_value int v h = RoundTrip-int h
  RoundTrip-untagged_value long v h = RoundTrip-long h
  RoundTrip-untagged_value short v h = RoundTrip-signed 2 v h
  RoundTrip-untagged_value void v h = RoundTrip-return v
  RoundTrip-untagged_value boolean v h = RoundTrip-boolean
  RoundTrip-untagged_value _ v h = RoundTrip-object_id h

  pub RoundTrip-value : {v : JdwpValue} → IsValue p s v → RoundTrip p s (write_value v) read_value v
  unfolding write_value read_value
  RoundTrip-value {v} h = RoundTrip-seq _ RoundTrip-tag (
      RoundTrip-last (λ x. record { tag = v.tag; value = x })
        (RoundTrip-untagged_value v.tag v.value h))
