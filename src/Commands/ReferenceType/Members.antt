-- ===== src/Commands/ReferenceType/Members.antt =====
-- src/jdwpy/commands/reference_type.py: Fields, Methods.
use jdwpy.Prelude.{All, List, length}
use jdwpy.Prelude.Int.{pos, ℤ}
use jdwpy.Utf8.{Str}
use jdwpy.Spec.{IdSizesSpec}
use jdwpy.Io.{Platform, Read, Write, for_each, read_list, return, ◌>>=◌, ◌>>◌}
use jdwpy.Io.Ranges.{IsId, IsInt, IsString}
use jdwpy.Io.Reader.{read_field_id, read_int, read_method_id, read_reference_type_id, read_string}
use jdwpy.Io.Writer.{
  write_field_id, write_int, write_method_id, write_reference_type_id, write_string,
}
use jdwpy.Io.Codec.{RoundTrip, RoundTrip-All, RoundTrip-last, RoundTrip-seq}
use jdwpy.Io.Primitives.{
  RoundTrip-field_id, RoundTrip-int, RoundTrip-method_id, RoundTrip-reference_type_id,
  RoundTrip-string,
}

pub record FieldsEntry : Type 0 where
  pub field_id : ℤ
  pub name : Str
  pub signature : Str
  pub mod_bits : ℤ

unfoldable pub serialize_fields_entry : FieldsEntry → Write
serialize_fields_entry c = do
  write_field_id c.field_id
  write_string c.name
  write_string c.signature
  write_int c.mod_bits

unfoldable pub deserialize_fields_entry : Read FieldsEntry
deserialize_fields_entry = do
  field_id ← read_field_id
  name ← read_string
  signature ← read_string
  mod_bits ← read_int
  return (record { field_id = field_id; name = name; signature = signature; mod_bits = mod_bits })

abbrev pub IsFieldsEntry : Platform → IdSizesSpec → FieldsEntry → Type 0
IsFieldsEntry p s c =
    IsId s.field_id_struct c.field_id × IsString c.name × IsString c.signature × IsInt c.mod_bits

pub RoundTrip-fields_entry :
    {p : Platform} {s : IdSizesSpec} {c : FieldsEntry}
    → IsFieldsEntry p s c
    → RoundTrip p s (serialize_fields_entry c) deserialize_fields_entry c
unfolding serialize_fields_entry deserialize_fields_entry
RoundTrip-fields_entry h = RoundTrip-seq _ (RoundTrip-field_id h.0) (
    RoundTrip-seq _ (RoundTrip-string h.1)
      (RoundTrip-seq _ (RoundTrip-string h.2) (RoundTrip-last _ (RoundTrip-int h.3))))

pub record FieldsResponse : Type 0 where
  pub fields : List FieldsEntry

unfoldable pub serialize_fields_response : FieldsResponse → Write
serialize_fields_response c = do
  write_int (pos (length c.fields))
  for_each c.fields serialize_fields_entry

unfoldable pub deserialize_fields_response : Read FieldsResponse
deserialize_fields_response = do
  num ← read_int
  fields ← read_list num deserialize_fields_entry
  return (record { fields = fields })

abbrev pub IsFieldsResponse : Platform → IdSizesSpec → FieldsResponse → Type 0
IsFieldsResponse p s c = IsInt (pos (length c.fields)) × All (IsFieldsEntry p s) c.fields

pub RoundTrip-fields_response :
    {p : Platform} {s : IdSizesSpec} {c : FieldsResponse}
    → IsFieldsResponse p s c
    → RoundTrip p s (serialize_fields_response c) deserialize_fields_response c
unfolding serialize_fields_response deserialize_fields_response
RoundTrip-fields_response {p = p} {s = s} {c = c} h = RoundTrip-seq _ (RoundTrip-int h.0) (
    RoundTrip-last _ (
      RoundTrip-All serialize_fields_entry deserialize_fields_entry (IsFieldsEntry p s) c.fields
        (λ x h. RoundTrip-fields_entry h) h.1))

pub record FieldsCommand : Type 0 where
  pub ref_type : ℤ

unfoldable pub serialize_fields_command : FieldsCommand → Write
serialize_fields_command c = write_reference_type_id c.ref_type

unfoldable pub deserialize_fields_command : Read FieldsCommand
deserialize_fields_command = do
  ref_type ← read_reference_type_id
  return (record { ref_type = ref_type })

abbrev pub IsFieldsCommand : Platform → IdSizesSpec → FieldsCommand → Type 0
IsFieldsCommand p s c = IsId s.reference_type_id_struct c.ref_type

pub RoundTrip-fields_command :
    {p : Platform} {s : IdSizesSpec} {c : FieldsCommand}
    → IsFieldsCommand p s c
    → RoundTrip p s (serialize_fields_command c) deserialize_fields_command c
unfolding serialize_fields_command deserialize_fields_command
RoundTrip-fields_command h = RoundTrip-last _ (RoundTrip-reference_type_id h)

pub record MethodsEntry : Type 0 where
  pub method_id : ℤ
  pub name : Str
  pub signature : Str
  pub mod_bits : ℤ

unfoldable pub serialize_methods_entry : MethodsEntry → Write
serialize_methods_entry c = do
  write_method_id c.method_id
  write_string c.name
  write_string c.signature
  write_int c.mod_bits

unfoldable pub deserialize_methods_entry : Read MethodsEntry
deserialize_methods_entry = do
  method_id ← read_method_id
  name ← read_string
  signature ← read_string
  mod_bits ← read_int
  return (record { method_id = method_id; name = name; signature = signature; mod_bits = mod_bits })

abbrev pub IsMethodsEntry : Platform → IdSizesSpec → MethodsEntry → Type 0
IsMethodsEntry p s c =
    IsId s.method_id_struct c.method_id × IsString c.name × IsString c.signature × IsInt c.mod_bits

pub RoundTrip-methods_entry :
    {p : Platform} {s : IdSizesSpec} {c : MethodsEntry}
    → IsMethodsEntry p s c
    → RoundTrip p s (serialize_methods_entry c) deserialize_methods_entry c
unfolding serialize_methods_entry deserialize_methods_entry
RoundTrip-methods_entry h = RoundTrip-seq _ (RoundTrip-method_id h.0) (
    RoundTrip-seq _ (RoundTrip-string h.1)
      (RoundTrip-seq _ (RoundTrip-string h.2) (RoundTrip-last _ (RoundTrip-int h.3))))

pub record MethodsResponse : Type 0 where
  pub methods : List MethodsEntry

unfoldable pub serialize_methods_response : MethodsResponse → Write
serialize_methods_response c = do
  write_int (pos (length c.methods))
  for_each c.methods serialize_methods_entry

unfoldable pub deserialize_methods_response : Read MethodsResponse
deserialize_methods_response = do
  num ← read_int
  methods ← read_list num deserialize_methods_entry
  return (record { methods = methods })

abbrev pub IsMethodsResponse : Platform → IdSizesSpec → MethodsResponse → Type 0
IsMethodsResponse p s c = IsInt (pos (length c.methods)) × All (IsMethodsEntry p s) c.methods

pub RoundTrip-methods_response :
    {p : Platform} {s : IdSizesSpec} {c : MethodsResponse}
    → IsMethodsResponse p s c
    → RoundTrip p s (serialize_methods_response c) deserialize_methods_response c
unfolding serialize_methods_response deserialize_methods_response
RoundTrip-methods_response {p = p} {s = s} {c = c} h = RoundTrip-seq _ (RoundTrip-int h.0) (
    RoundTrip-last _ (
      RoundTrip-All serialize_methods_entry deserialize_methods_entry (IsMethodsEntry p s) c.methods
        (λ x h. RoundTrip-methods_entry h) h.1))

pub record MethodsCommand : Type 0 where
  pub ref_type : ℤ

unfoldable pub serialize_methods_command : MethodsCommand → Write
serialize_methods_command c = write_reference_type_id c.ref_type

unfoldable pub deserialize_methods_command : Read MethodsCommand
deserialize_methods_command = do
  ref_type ← read_reference_type_id
  return (record { ref_type = ref_type })

abbrev pub IsMethodsCommand : Platform → IdSizesSpec → MethodsCommand → Type 0
IsMethodsCommand p s c = IsId s.reference_type_id_struct c.ref_type

pub RoundTrip-methods_command :
    {p : Platform} {s : IdSizesSpec} {c : MethodsCommand}
    → IsMethodsCommand p s c
    → RoundTrip p s (serialize_methods_command c) deserialize_methods_command c
unfolding serialize_methods_command deserialize_methods_command
RoundTrip-methods_command h = RoundTrip-last _ (RoundTrip-reference_type_id h)
