-- ===== src/Commands/ReferenceType/Generic.antt =====
-- src/jdwpy/commands/reference_type.py: FieldsWithGeneric, MethodsWithGeneric.
use jdwpy.Prelude.{All, List, length}
use jdwpy.Prelude.Int.{pos, ℤ}
use jdwpy.Utf8.{Str}
use jdwpy.Spec.{IdSizesSpec}
use jdwpy.Io.{Platform, Read, Write, for_each, read_list, return, ◌>>=◌, ◌>>◌}
use jdwpy.Io.Ranges.{IsId, IsInt, IsString}
use jdwpy.Io.Reader.{read_field_id, read_int, read_method_id, read_reference_type_id, read_string}
use jdwpy.Io.Writer.{
  write_field_id, write_int, write_method_id, write_reference_type_id, write_string,
}
use jdwpy.Io.Codec.{RoundTrip, RoundTrip-All, RoundTrip-last, RoundTrip-seq}
use jdwpy.Io.Primitives.{
  RoundTrip-field_id, RoundTrip-int, RoundTrip-method_id, RoundTrip-reference_type_id,
  RoundTrip-string,
}

pub record FieldsWithGenericEntry : Type 0 where
  pub field_id : ℤ
  pub name : Str
  pub signature : Str
  pub generic_signature : Str
  pub mod_bits : ℤ

unfoldable pub serialize_fields_with_generic_entry : FieldsWithGenericEntry → Write
serialize_fields_with_generic_entry c = do
  write_field_id c.field_id
  write_string c.name
  write_string c.signature
  write_string c.generic_signature
  write_int c.mod_bits

unfoldable pub deserialize_fields_with_generic_entry : Read FieldsWithGenericEntry
deserialize_fields_with_generic_entry = do
  field_id ← read_field_id
  name ← read_string
  signature ← read_string
  generic_signature ← read_string
  mod_bits ← read_int
  return (record {
    field_id = field_id;
    name = name;
    signature = signature;
    generic_signature = generic_signature;
    mod_bits = mod_bits;
  })

abbrev pub IsFieldsWithGenericEntry : Platform → IdSizesSpec → FieldsWithGenericEntry → Type 0
IsFieldsWithGenericEntry p s c =
    IsId s.field_id_struct c.field_id
    × IsString c.name
    × IsString c.signature
    × IsString c.generic_signature
    × IsInt c.mod_bits

pub RoundTrip-fields_with_generic_entry :
    {p : Platform} {s : IdSizesSpec} {c : FieldsWithGenericEntry}
    → IsFieldsWithGenericEntry p s c
    → RoundTrip p s (serialize_fields_with_generic_entry c) deserialize_fields_with_generic_entry c
unfolding serialize_fields_with_generic_entry deserialize_fields_with_generic_entry
RoundTrip-fields_with_generic_entry h = RoundTrip-seq _ (RoundTrip-field_id h.0) (
    RoundTrip-seq _ (RoundTrip-string h.1) (
      RoundTrip-seq _ (RoundTrip-string h.2)
        (RoundTrip-seq _ (RoundTrip-string h.3) (RoundTrip-last _ (RoundTrip-int h.4)))))

pub record FieldsWithGenericResponse : Type 0 where
  pub fields : List FieldsWithGenericEntry

unfoldable pub serialize_fields_with_generic_response : FieldsWithGenericResponse → Write
serialize_fields_with_generic_response c = do
  write_int (pos (length c.fields))
  for_each c.fields serialize_fields_with_generic_entry

unfoldable pub deserialize_fields_with_generic_response : Read FieldsWithGenericResponse
deserialize_fields_with_generic_response = do
  num ← read_int
  fields ← read_list num deserialize_fields_with_generic_entry
  return (record { fields = fields })

abbrev pub IsFieldsWithGenericResponse : Platform → IdSizesSpec → FieldsWithGenericResponse → Type 0
IsFieldsWithGenericResponse p s c =
    IsInt (pos (length c.fields)) × All (IsFieldsWithGenericEntry p s) c.fields

pub RoundTrip-fields_with_generic_response :
    {p : Platform} {s : IdSizesSpec} {c : FieldsWithGenericResponse}
    → IsFieldsWithGenericResponse p s c
    → RoundTrip p s
        (serialize_fields_with_generic_response c)
        deserialize_fields_with_generic_response
        c
unfolding serialize_fields_with_generic_response deserialize_fields_with_generic_response
RoundTrip-fields_with_generic_response {p = p} {s = s} {c = c} h =
    RoundTrip-seq _ (RoundTrip-int h.0) (
      RoundTrip-last _ (
        RoundTrip-All serialize_fields_with_generic_entry deserialize_fields_with_generic_entry
          (IsFieldsWithGenericEntry p s) c.fields (λ x h. RoundTrip-fields_with_generic_entry h)
          h.1))

pub record FieldsWithGenericCommand : Type 0 where
  pub ref_type : ℤ

unfoldable pub serialize_fields_with_generic_command : FieldsWithGenericCommand → Write
serialize_fields_with_generic_command c = write_reference_type_id c.ref_type

unfoldable pub deserialize_fields_with_generic_command : Read FieldsWithGenericCommand
deserialize_fields_with_generic_command = do
  ref_type ← read_reference_type_id
  return (record { ref_type = ref_type })

abbrev pub IsFieldsWithGenericCommand : Platform → IdSizesSpec → FieldsWithGenericCommand → Type 0
IsFieldsWithGenericCommand p s c = IsId s.reference_type_id_struct c.ref_type

pub RoundTrip-fields_with_generic_command :
    {p : Platform} {s : IdSizesSpec} {c : FieldsWithGenericCommand}
    → IsFieldsWithGenericCommand p s c
    → RoundTrip p s
        (serialize_fields_with_generic_command c)
        deserialize_fields_with_generic_command
        c
unfolding serialize_fields_with_generic_command deserialize_fields_with_generic_command
RoundTrip-fields_with_generic_command h = RoundTrip-last _ (RoundTrip-reference_type_id h)

pub record MethodsWithGenericEntry : Type 0 where
  pub method_id : ℤ
  pub name : Str
  pub signature : Str
  pub generic_signature : Str
  pub mod_bits : ℤ

unfoldable pub serialize_methods_with_generic_entry : MethodsWithGenericEntry → Write
serialize_methods_with_generic_entry c = do
  write_method_id c.method_id
  write_string c.name
  write_string c.signature
  write_string c.generic_signature
  write_int c.mod_bits

unfoldable pub deserialize_methods_with_generic_entry : Read MethodsWithGenericEntry
deserialize_methods_with_generic_entry = do
  method_id ← read_method_id
  name ← read_string
  signature ← read_string
  generic_signature ← read_string
  mod_bits ← read_int
  return (record {
    method_id = method_id;
    name = name;
    signature = signature;
    generic_signature = generic_signature;
    mod_bits = mod_bits;
  })

abbrev pub IsMethodsWithGenericEntry : Platform → IdSizesSpec → MethodsWithGenericEntry → Type 0
IsMethodsWithGenericEntry p s c =
    IsId s.method_id_struct c.method_id
    × IsString c.name
    × IsString c.signature
    × IsString c.generic_signature
    × IsInt c.mod_bits

pub RoundTrip-methods_with_generic_entry :
    {p : Platform} {s : IdSizesSpec} {c : MethodsWithGenericEntry}
    → IsMethodsWithGenericEntry p s c
    → RoundTrip p s
        (serialize_methods_with_generic_entry c)
        deserialize_methods_with_generic_entry
        c
unfolding serialize_methods_with_generic_entry deserialize_methods_with_generic_entry
RoundTrip-methods_with_generic_entry h = RoundTrip-seq _ (RoundTrip-method_id h.0) (
    RoundTrip-seq _ (RoundTrip-string h.1) (
      RoundTrip-seq _ (RoundTrip-string h.2)
        (RoundTrip-seq _ (RoundTrip-string h.3) (RoundTrip-last _ (RoundTrip-int h.4)))))

pub record MethodsWithGenericResponse : Type 0 where
  pub methods : List MethodsWithGenericEntry

unfoldable pub serialize_methods_with_generic_response : MethodsWithGenericResponse → Write
serialize_methods_with_generic_response c = do
  write_int (pos (length c.methods))
  for_each c.methods serialize_methods_with_generic_entry

unfoldable pub deserialize_methods_with_generic_response : Read MethodsWithGenericResponse
deserialize_methods_with_generic_response = do
  num ← read_int
  methods ← read_list num deserialize_methods_with_generic_entry
  return (record { methods = methods })

abbrev pub IsMethodsWithGenericResponse :
    Platform → IdSizesSpec → MethodsWithGenericResponse → Type 0
IsMethodsWithGenericResponse p s c =
    IsInt (pos (length c.methods)) × All (IsMethodsWithGenericEntry p s) c.methods

pub RoundTrip-methods_with_generic_response :
    {p : Platform} {s : IdSizesSpec} {c : MethodsWithGenericResponse}
    → IsMethodsWithGenericResponse p s c
    → RoundTrip p s
        (serialize_methods_with_generic_response c)
        deserialize_methods_with_generic_response
        c
unfolding serialize_methods_with_generic_response deserialize_methods_with_generic_response
RoundTrip-methods_with_generic_response {p = p} {s = s} {c = c} h =
    RoundTrip-seq _ (RoundTrip-int h.0) (
      RoundTrip-last _ (
        RoundTrip-All serialize_methods_with_generic_entry deserialize_methods_with_generic_entry
          (IsMethodsWithGenericEntry p s) c.methods (λ x h. RoundTrip-methods_with_generic_entry h)
          h.1))

pub record MethodsWithGenericCommand : Type 0 where
  pub ref_type : ℤ

unfoldable pub serialize_methods_with_generic_command : MethodsWithGenericCommand → Write
serialize_methods_with_generic_command c = write_reference_type_id c.ref_type

unfoldable pub deserialize_methods_with_generic_command : Read MethodsWithGenericCommand
deserialize_methods_with_generic_command = do
  ref_type ← read_reference_type_id
  return (record { ref_type = ref_type })

abbrev pub IsMethodsWithGenericCommand : Platform → IdSizesSpec → MethodsWithGenericCommand → Type 0
IsMethodsWithGenericCommand p s c = IsId s.reference_type_id_struct c.ref_type

pub RoundTrip-methods_with_generic_command :
    {p : Platform} {s : IdSizesSpec} {c : MethodsWithGenericCommand}
    → IsMethodsWithGenericCommand p s c
    → RoundTrip p s
        (serialize_methods_with_generic_command c)
        deserialize_methods_with_generic_command
        c
unfolding serialize_methods_with_generic_command deserialize_methods_with_generic_command
RoundTrip-methods_with_generic_command h = RoundTrip-last _ (RoundTrip-reference_type_id h)
