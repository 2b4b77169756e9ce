-- ===== src/Commands/ClassObjectReference/Reflected.antt =====
-- src/jdwpy/commands/class_object_reference.py: ReflectedType.
use jdwpy.Prelude.Int.{ℤ}
use jdwpy.Constants.TypeTag.{JdwpTypeTag}
use jdwpy.Spec.{IdSizesSpec}
use jdwpy.Io.{Platform, Read, Write, return, ◌>>=◌, ◌>>◌}
use jdwpy.Io.Ranges.{IsId}
use jdwpy.Io.Reader.{read_object_id, read_reference_type_id, read_type_tag}
use jdwpy.Io.Writer.{write_object_id, write_reference_type_id, write_type_tag}
use jdwpy.Io.Codec.{RoundTrip, RoundTrip-last, RoundTrip-seq}
use jdwpy.Io.Primitives.{RoundTrip-object_id, RoundTrip-reference_type_id}
use jdwpy.Io.Fields.{RoundTrip-type_tag}

pub record ReflectedTypeResponse : Type 0 where
  pub ref_type_tag : JdwpTypeTag
  pub type_id : ℤ

unfoldable pub serialize_reflected_type_response : ReflectedTypeResponse → Write
serialize_reflected_type_response c = do
  write_type_tag c.ref_type_tag
  write_reference_type_id c.type_id

unfoldable pub deserialize_reflected_type_response : Read ReflectedTypeResponse
deserialize_reflected_type_response = do
  ref_type_tag ← read_type_tag
  type_id ← read_reference_type_id
  return (record { ref_type_tag = ref_type_tag; type_id = type_id })

abbrev pub IsReflectedTypeResponse : Platform → IdSizesSpec → ReflectedTypeResponse → Type 0
IsReflectedTypeResponse p s c = IsId s.reference_type_id_struct c.type_id

pub RoundTrip-reflected_type_response :
    {p : Platform} {s : IdSizesSpec} {c : ReflectedTypeResponse}
    → IsReflectedTypeResponse p s c
    → RoundTrip p s (serialize_reflected_type_response c) deserialize_reflected_type_response c
unfolding serialize_reflected_type_response deserialize_reflected_type_response
RoundTrip-reflected_type_response h =
    RoundTrip-seq _ RoundTrip-type_tag (RoundTrip-last _ (RoundTrip-reference_type_id h))

pub record ReflectedTypeCommand : Type 0 where
  pub class_object : ℤ

unfoldable pub serialize_reflected_type_command : ReflectedTypeCommand → Write
serialize_reflected_type_command c = write_object_id c.class_object

unfoldable pub deserialize_reflected_type_command : Read ReflectedTypeCommand
deserialize_reflected_type_command = do
  class_object ← read_object_id
  return (record { class_object = class_object })

abbrev pub IsReflectedTypeCommand : Platform → IdSizesSpec → ReflectedTypeCommand → Type 0
IsReflectedTypeCommand p s c = IsId s.object_id_struct c.class_object

pub RoundTrip-reflected_type_command :
    {p : Platform} {s : IdSizesSpec} {c : ReflectedTypeCommand}
    → IsReflectedTypeCommand p s c
    → RoundTrip p s (serialize_reflected_type_command c) deserialize_reflected_type_command c
unfolding serialize_reflected_type_command deserialize_reflected_type_command
RoundTrip-reflected_type_command h = RoundTrip-last _ (RoundTrip-object_id h)
