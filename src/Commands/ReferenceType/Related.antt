-- ===== src/Commands/ReferenceType/Related.antt =====
-- src/jdwpy/commands/reference_type.py: Interfaces, ClassObject, SourceDebugExtension, SignatureWithGeneric.
use jdwpy.Prelude.{All, List, length}
use jdwpy.Prelude.Int.{pos, ℤ}
use jdwpy.Utf8.{Str}
use jdwpy.Spec.{IdSizesSpec}
use jdwpy.Io.{Platform, Read, Write, for_each, read_list, return, ◌>>=◌, ◌>>◌}
use jdwpy.Io.Ranges.{IsId, IsInt, IsString}
use jdwpy.Io.Reader.{
  read_class_object_id, read_int, read_interface_id, read_reference_type_id, read_string,
}
use jdwpy.Io.Writer.{
  write_class_object_id, write_int, write_interface_id, write_reference_type_id, write_string,
}
use jdwpy.Io.Codec.{RoundTrip, RoundTrip-All, RoundTrip-last, RoundTrip-seq}
use jdwpy.Io.Primitives.{
  RoundTrip-int, RoundTrip-object_id, RoundTrip-reference_type_id, RoundTrip-string,
}

pub record InterfacesResponse : Type 0 where
  pub interfaces : List ℤ

unfoldable pub serialize_interfaces_response : InterfacesResponse → Write
serialize_interfaces_response c = do
  write_int (pos (length c.interfaces))
  for_each c.interfaces write_interface_id

unfoldable pub deserialize_interfaces_response : Read InterfacesResponse
deserialize_interfaces_response = do
  num ← read_int
  interfaces ← read_list num read_interface_id
  return (record { interfaces = interfaces })

abbrev pub IsInterfacesResponse : Platform → IdSizesSpec → InterfacesResponse → Type 0
IsInterfacesResponse p s c =
    IsInt (pos (length c.interfaces)) × All (λ x. IsId s.object_id_struct x) c.interfaces

pub RoundTrip-interfaces_response :
    {p : Platform} {s : IdSizesSpec} {c : InterfacesResponse}
    → IsInterfacesResponse p s c
    → RoundTrip p s (serialize_interfaces_response c) deserialize_interfaces_response c
unfolding serialize_interfaces_response deserialize_interfaces_response
RoundTrip-interfaces_response {s = s} {c = c} h = RoundTrip-seq _ (RoundTrip-int h.0) (
    RoundTrip-last _ (
      RoundTrip-All write_interface_id read_interface_id (λ x. IsId s.object_id_struct x)
        c.interfaces (λ x h. RoundTrip-object_id h) h.1))

pub record InterfacesCommand : Type 0 where
  pub ref_type : ℤ

unfoldable pub serialize_interfaces_command : InterfacesCommand → Write
serialize_interfaces_command c = write_reference_type_id c.ref_type

unfoldable pub deserialize_interfaces_command : Read InterfacesCommand
deserialize_interfaces_command = do
  ref_type ← read_reference_type_id
  return (record { ref_type = ref_type })

abbrev pub IsInterfacesCommand : Platform → IdSizesSpec → InterfacesCommand → Type 0
IsInterfacesCommand p s c = IsId s.reference_type_id_struct c.ref_type

pub RoundTrip-interfaces_command :
    {p : Platform} {s : IdSizesSpec} {c : InterfacesCommand}
    → IsInterfacesCommand p s c
    → RoundTrip p s (serialize_interfaces_command c) deserialize_interfaces_command c
unfolding serialize_interfaces_command deserialize_interfaces_command
RoundTrip-interfaces_command h = RoundTrip-last _ (RoundTrip-reference_type_id h)

pub record ClassObjectResponse : Type 0 where
  pub class_object : ℤ

unfoldable pub serialize_class_object_response : ClassObjectResponse → Write
serialize_class_object_response c = write_class_object_id c.class_object

unfoldable pub deserialize_class_object_response : Read ClassObjectResponse
deserialize_class_object_response = do
  class_object ← read_class_object_id
  return (record { class_object = class_object })

abbrev pub IsClassObjectResponse : Platform → IdSizesSpec → ClassObjectResponse → Type 0
IsClassObjectResponse p s c = IsId s.object_id_struct c.class_object

pub RoundTrip-class_object_response :
    {p : Platform} {s : IdSizesSpec} {c : ClassObjectResponse}
    → IsClassObjectResponse p s c
    → RoundTrip p s (serialize_class_object_response c) deserialize_class_object_response c
unfolding serialize_class_object_response deserialize_class_object_response
RoundTrip-class_object_response h = RoundTrip-last _ (RoundTrip-object_id h)

pub record ClassObjectCommand : Type 0 where
  pub ref_type : ℤ

unfoldable pub serialize_class_object_command : ClassObjectCommand → Write
serialize_class_object_command c = write_reference_type_id c.ref_type

unfoldable pub deserialize_class_object_command : Read ClassObjectCommand
deserialize_class_object_command = do
  ref_type ← read_reference_type_id
  return (record { ref_type = ref_type })

abbrev pub IsClassObjectCommand : Platform → IdSizesSpec → ClassObjectCommand → Type 0
IsClassObjectCommand p s c = IsId s.reference_type_id_struct c.ref_type

pub RoundTrip-class_object_command :
    {p : Platform} {s : IdSizesSpec} {c : ClassObjectCommand}
    → IsClassObjectCommand p s c
    → RoundTrip p s (serialize_class_object_command c) deserialize_class_object_command c
unfolding serialize_class_object_command deserialize_class_object_command
RoundTrip-class_object_command h = RoundTrip-last _ (RoundTrip-reference_type_id h)

pub record SourceDebugExtensionResponse : Type 0 where
  pub extension : Str

unfoldable pub serialize_source_debug_extension_response : SourceDebugExtensionResponse → Write
serialize_source_debug_extension_response c = write_string c.extension

unfoldable pub deserialize_source_debug_extension_response : Read SourceDebugExtensionResponse
deserialize_source_debug_extension_response = do
  extension ← read_string
  return (record { extension = extension })

abbrev pub IsSourceDebugExtensionResponse :
    Platform → IdSizesSpec → SourceDebugExtensionResponse → Type 0
IsSourceDebugExtensionResponse p s c = IsString c.extension

pub RoundTrip-source_debug_extension_response :
    {p : Platform} {s : IdSizesSpec} {c : SourceDebugExtensionResponse}
    → IsSourceDebugExtensionResponse p s c
    → RoundTrip p s
        (serialize_source_debug_extension_response c)
        deserialize_source_debug_extension_response
        c
unfolding serialize_source_debug_extension_response deserialize_source_debug_extension_response
RoundTrip-source_debug_extension_response h = RoundTrip-last _ (RoundTrip-string h)

pub record SourceDebugExtensionCommand : Type 0 where
  pub ref_type : ℤ

unfoldable pub serialize_source_debug_extension_command : SourceDebugExtensionCommand → Write
serialize_source_debug_extension_command c = write_reference_type_id c.ref_type

unfoldable pub deserialize_source_debug_extension_command : Read SourceDebugExtensionCommand
deserialize_source_debug_extension_command = do
  ref_type ← read_reference_type_id
  return (record { ref_type = ref_type })

abbrev pub IsSourceDebugExtensionCommand :
    Platform → IdSizesSpec → SourceDebugExtensionCommand → Type 0
IsSourceDebugExtensionCommand p s c = IsId s.reference_type_id_struct c.ref_type

pub RoundTrip-source_debug_extension_command :
    {p : Platform} {s : IdSizesSpec} {c : SourceDebugExtensionCommand}
    → IsSourceDebugExtensionCommand p s c
    → RoundTrip p s
        (serialize_source_debug_extension_command c)
        deserialize_source_debug_extension_command
        c
unfolding serialize_source_debug_extension_command deserialize_source_debug_extension_command
RoundTrip-source_debug_extension_command h = RoundTrip-last _ (RoundTrip-reference_type_id h)

pub record SignatureWithGenericResponse : Type 0 where
  pub signature : Str
  pub generic_signature : Str

unfoldable pub serialize_signature_with_generic_response : SignatureWithGenericResponse → Write
serialize_signature_with_generic_response c = do
  write_string c.signature
  write_string c.generic_signature

unfoldable pub deserialize_signature_with_generic_response : Read SignatureWithGenericResponse
deserialize_signature_with_generic_response = do
  signature ← read_string
  generic_signature ← read_string
  return (record { signature = signature; generic_signature = generic_signature })

abbrev pub IsSignatureWithGenericResponse :
    Platform → IdSizesSpec → SignatureWithGenericResponse → Type 0
IsSignatureWithGenericResponse p s c = IsString c.signature × IsString c.generic_signature

pub RoundTrip-signature_with_generic_response :
    {p : Platform} {s : IdSizesSpec} {c : SignatureWithGenericResponse}
    → IsSignatureWithGenericResponse p s c
    → RoundTrip p s
        (serialize_signature_with_generic_response c)
        deserialize_signature_with_generic_response
        c
unfolding serialize_signature_with_generic_response deserialize_signature_with_generic_response
RoundTrip-signature_with_generic_response h =
    RoundTrip-seq _ (RoundTrip-string h.0) (RoundTrip-last _ (RoundTrip-string h.1))

pub record SignatureWithGenericCommand : Type 0 where
  pub ref_type : ℤ

unfoldable pub serialize_signature_with_generic_command : SignatureWithGenericCommand → Write
serialize_signature_with_generic_command c = write_reference_type_id c.ref_type

unfoldable pub deserialize_signature_with_generic_command : Read SignatureWithGenericCommand
deserialize_signature_with_generic_command = do
  ref_type ← read_reference_type_id
  return (record { ref_type = ref_type })

abbrev pub IsSignatureWithGenericCommand :
    Platform → IdSizesSpec → SignatureWithGenericCommand → Type 0
IsSignatureWithGenericCommand p s c = IsId s.reference_type_id_struct c.ref_type

pub RoundTrip-signature_with_generic_command :
    {p : Platform} {s : IdSizesSpec} {c : SignatureWithGenericCommand}
    → IsSignatureWithGenericCommand p s c
    → RoundTrip p s
        (serialize_signature_with_generic_command c)
        deserialize_signature_with_generic_command
        c
unfolding serialize_signature_with_generic_command deserialize_signature_with_generic_command
RoundTrip-signature_with_generic_command h = RoundTrip-last _ (RoundTrip-reference_type_id h)
