-- ===== src/Commands/ReferenceType/Identity.antt =====
-- src/jdwpy/commands/reference_type.py: Signature, ClassLoader, Modifiers, Status.
use jdwpy.Prelude.{ℕ}
use jdwpy.Prelude.Int.{ℤ}
use jdwpy.Utf8.{Str}
use jdwpy.Spec.{IdSizesSpec}
use jdwpy.Io.{Platform, Read, Write, return, ◌>>=◌}
use jdwpy.Io.Ranges.{IsId, IsInt, IsString}
use jdwpy.Io.Reader.{read_class_loader_id, read_int, read_reference_type_id, read_string}
use jdwpy.Io.Writer.{write_class_loader_id, write_int, write_reference_type_id, write_string}
use jdwpy.Io.Codec.{RoundTrip, RoundTrip-last}
use jdwpy.Io.Primitives.{
  RoundTrip-int, RoundTrip-object_id, RoundTrip-reference_type_id, RoundTrip-string,
}
use jdwpy.Commands.Members.{IsFlag, RoundTrip-class_status, read_class_status, write_flag}

pub record SignatureResponse : Type 0 where
  pub signature : Str

unfoldable pub serialize_signature_response : SignatureResponse → Write
serialize_signature_response c = write_string c.signature

unfoldable pub deserialize_signature_response : Read SignatureResponse
deserialize_signature_response = do
  signature ← read_string
  return (record { signature = signature })

abbrev pub IsSignatureResponse : Platform → IdSizesSpec → SignatureResponse → Type 0
IsSignatureResponse p s c = IsString c.signature

pub RoundTrip-signature_response :
    {p : Platform} {s : IdSizesSpec} {c : SignatureResponse}
    → IsSignatureResponse p s c
    → RoundTrip p s (serialize_signature_response c) deserialize_signature_response c
unfolding serialize_signature_response deserialize_signature_response
RoundTrip-signature_response h = RoundTrip-last _ (RoundTrip-string h)

pub record SignatureCommand : Type 0 where
  pub ref_type : ℤ

unfoldable pub serialize_signature_command : SignatureCommand → Write
serialize_signature_command c = write_reference_type_id c.ref_type

unfoldable pub deserialize_signature_command : Read SignatureCommand
deserialize_signature_command = do
  ref_type ← read_reference_type_id
  return (record { ref_type = ref_type })

abbrev pub IsSignatureCommand : Platform → IdSizesSpec → SignatureCommand → Type 0
IsSignatureCommand p s c = IsId s.reference_type_id_struct c.ref_type

pub RoundTrip-signature_command :
    {p : Platform} {s : IdSizesSpec} {c : SignatureCommand}
    → IsSignatureCommand p s c
    → RoundTrip p s (serialize_signature_command c) deserialize_signature_command c
unfolding serialize_signature_command deserialize_signature_command
RoundTrip-signature_command h = RoundTrip-last _ (RoundTrip-reference_type_id h)

pub record ClassLoaderResponse : Type 0 where
  pub class_loader : ℤ

unfoldable pub serialize_class_loader_response : ClassLoaderResponse → Write
serialize_class_loader_response c = write_class_loader_id c.class_loader

unfoldable pub deserialize_class_loader_response : Read ClassLoaderResponse
deserialize_class_loader_response = do
  class_loader ← read_class_loader_id
  return (record { class_loader = class_loader })

abbrev pub IsClassLoaderResponse : Platform → IdSizesSpec → ClassLoaderResponse → Type 0
IsClassLoaderResponse p s c = IsId s.object_id_struct c.class_loader

pub RoundTrip-class_loader_response :
    {p : Platform} {s : IdSizesSpec} {c : ClassLoaderResponse}
    → IsClassLoaderResponse p s c
    → RoundTrip p s (serialize_class_loader_response c) deserialize_class_loader_response c
unfolding serialize_class_loader_response deserialize_class_loader_response
RoundTrip-class_loader_response h = RoundTrip-last _ (RoundTrip-object_id h)

pub record ClassLoaderCommand : Type 0 where
  pub ref_type : ℤ

unfoldable pub serialize_class_loader_command : ClassLoaderCommand → Write
serialize_class_loader_command c = write_reference_type_id c.ref_type

unfoldable pub deserialize_class_loader_command : Read ClassLoaderCommand
deserialize_class_loader_command = do
  ref_type ← read_reference_type_id
  return (record { ref_type = ref_type })

abbrev pub IsClassLoaderCommand : Platform → IdSizesSpec → ClassLoaderCommand → Type 0
IsClassLoaderCommand p s c = IsId s.reference_type_id_struct c.ref_type

pub RoundTrip-class_loader_command :
    {p : Platform} {s : IdSizesSpec} {c : ClassLoaderCommand}
    → IsClassLoaderCommand p s c
    → RoundTrip p s (serialize_class_loader_command c) deserialize_class_loader_command c
unfolding serialize_class_loader_command deserialize_class_loader_command
RoundTrip-class_loader_command h = RoundTrip-last _ (RoundTrip-reference_type_id h)

pub record ModifiersResponse : Type 0 where
  pub mod_bits : ℤ

unfoldable pub serialize_modifiers_response : ModifiersResponse → Write
serialize_modifiers_response c = write_int c.mod_bits

unfoldable pub deserialize_modifiers_response : Read ModifiersResponse
deserialize_modifiers_response = do mod_bits ← read_int; return (record { mod_bits = mod_bits })

abbrev pub IsModifiersResponse : Platform → IdSizesSpec → ModifiersResponse → Type 0
IsModifiersResponse p s c = IsInt c.mod_bits

pub RoundTrip-modifiers_response :
    {p : Platform} {s : IdSizesSpec} {c : ModifiersResponse}
    → IsModifiersResponse p s c
    → RoundTrip p s (serialize_modifiers_response c) deserialize_modifiers_response c
unfolding serialize_modifiers_response deserialize_modifiers_response
RoundTrip-modifiers_response h = RoundTrip-last _ (RoundTrip-int h)

pub record ModifiersCommand : Type 0 where
  pub ref_type : ℤ

unfoldable pub serialize_modifiers_command : ModifiersCommand → Write
serialize_modifiers_command c = write_reference_type_id c.ref_type

unfoldable pub deserialize_modifiers_command : Read ModifiersCommand
deserialize_modifiers_command = do
  ref_type ← read_reference_type_id
  return (record { ref_type = ref_type })

abbrev pub IsModifiersCommand : Platform → IdSizesSpec → ModifiersCommand → Type 0
IsModifiersCommand p s c = IsId s.reference_type_id_struct c.ref_type

pub RoundTrip-modifiers_command :
    {p : Platform} {s : IdSizesSpec} {c : ModifiersCommand}
    → IsModifiersCommand p s c
    → RoundTrip p s (serialize_modifiers_command c) deserialize_modifiers_command c
unfolding serialize_modifiers_command deserialize_modifiers_command
RoundTrip-modifiers_command h = RoundTrip-last _ (RoundTrip-reference_type_id h)

pub record StatusResponse : Type 0 where
  pub status : ℕ

unfoldable pub serialize_status_response : StatusResponse → Write
serialize_status_response c = write_flag c.status

unfoldable pub deserialize_status_response : Read StatusResponse
deserialize_status_response = do status ← read_class_status; return (record { status = status })

abbrev pub IsStatusResponse : Platform → IdSizesSpec → StatusResponse → Type 0
IsStatusResponse p s c = IsFlag c.status

pub RoundTrip-status_response :
    {p : Platform} {s : IdSizesSpec} {c : StatusResponse}
    → IsStatusResponse p s c
    → RoundTrip p s (serialize_status_response c) deserialize_status_response c
unfolding serialize_status_response deserialize_status_response
RoundTrip-status_response h = RoundTrip-last _ (RoundTrip-class_status h)

pub record StatusCommand : Type 0 where
  pub ref_type : ℤ

unfoldable pub serialize_status_command : StatusCommand → Write
serialize_status_command c = write_reference_type_id c.ref_type

unfoldable pub deserialize_status_command : Read StatusCommand
deserialize_status_command = do
  ref_type ← read_reference_type_id
  return (record { ref_type = ref_type })

abbrev pub IsStatusCommand : Platform → IdSizesSpec → StatusCommand → Type 0
IsStatusCommand p s c = IsId s.reference_type_id_struct c.ref_type

pub RoundTrip-status_command :
    {p : Platform} {s : IdSizesSpec} {c : StatusCommand}
    → IsStatusCommand p s c
    → RoundTrip p s (serialize_status_command c) deserialize_status_command c
unfolding serialize_status_command deserialize_status_command
RoundTrip-status_command h = RoundTrip-last _ (RoundTrip-reference_type_id h)
