-- ===== src/Commands/ReferenceType/Values.antt =====
-- src/jdwpy/commands/reference_type.py: GetValues, SourceFile, NestedTypes.
use jdwpy.Prelude.{All, List, length}
use jdwpy.Prelude.Int.{pos, ℤ}
use jdwpy.Utf8.{Str}
use jdwpy.Constants.TypeTag.{JdwpTypeTag}
use jdwpy.Spec.{IdSizesSpec, JdwpValue}
use jdwpy.Io.{Platform, Read, Write, for_each, read_list, return, ◌>>=◌, ◌>>◌}
use jdwpy.Io.Ranges.{IsId, IsInt, IsString}
use jdwpy.Io.Reader.{read_field_id, read_int, read_reference_type_id, read_string, read_type_tag}
use jdwpy.Io.Writer.{
  write_field_id, write_int, write_reference_type_id, write_string, write_type_tag,
}
use jdwpy.Io.Values.{read_value, write_value}
use jdwpy.Io.Codec.{RoundTrip, RoundTrip-All, RoundTrip-last, RoundTrip-seq}
use jdwpy.Io.Primitives.{
  RoundTrip-field_id, RoundTrip-int, RoundTrip-reference_type_id, RoundTrip-string,
}
use jdwpy.Io.Fields.{IsValue, RoundTrip-type_tag, RoundTrip-value}

pub record GetValuesResponse : Type 0 where
  pub values : List JdwpValue

unfoldable pub serialize_get_values_response : GetValuesResponse → Write
serialize_get_values_response c = do
  write_int (pos (length c.values))
  for_each c.values write_value

unfoldable pub deserialize_get_values_response : Read GetValuesResponse
deserialize_get_values_response = do
  num ← read_int
  values ← read_list num read_value
  return (record { values = values })

abbrev pub IsGetValuesResponse : Platform → IdSizesSpec → GetValuesResponse → Type 0
IsGetValuesResponse p s c = IsInt (pos (length c.values)) × All (λ x. IsValue p s x) c.values

pub RoundTrip-get_values_response :
    {p : Platform} {s : IdSizesSpec} {c : GetValuesResponse}
    → IsGetValuesResponse p s c
    → RoundTrip p s (serialize_get_values_response c) deserialize_get_values_response c
unfolding serialize_get_values_response deserialize_get_values_response
RoundTrip-get_values_response {p = p} {s = s} {c = c} h = RoundTrip-seq _ (RoundTrip-int h.0) (
    RoundTrip-last _ (
      RoundTrip-All write_value read_value (λ x. IsValue p s x) c.values (λ x h. RoundTrip-value h)
        h.1))

pub record GetValuesCommand : Type 0 where
  pub ref_type : ℤ
  pub fields : List ℤ

unfoldable pub serialize_get_values_command : GetValuesCommand → Write
serialize_get_values_command c = do
  write_reference_type_id c.ref_type
  write_int (pos (length c.fields))
  for_each c.fields write_field_id

unfoldable pub deserialize_get_values_command : Read GetValuesCommand
deserialize_get_values_command = do
  ref_type ← read_reference_type_id
  num ← read_int
  fields ← read_list num read_field_id
  return (record { ref_type = ref_type; fields = fields })

abbrev pub IsGetValuesCommand : Platform → IdSizesSpec → GetValuesCommand → Type 0
IsGetValuesCommand p s c =
    IsId s.reference_type_id_struct c.ref_type
    × IsInt (pos (length c.fields))
    × All (λ x. IsId s.field_id_struct x) c.fields

pub RoundTrip-get_values_command :
    {p : Platform} {s : IdSizesSpec} {c : GetValuesCommand}
    → IsGetValuesCommand p s c
    → RoundTrip p s (serialize_get_values_command c) deserialize_get_values_command c
unfolding serialize_get_values_command deserialize_get_values_command
RoundTrip-get_values_command {s = s} {c = c} h = RoundTrip-seq _ (RoundTrip-reference_type_id h.0) (
    RoundTrip-seq _ (RoundTrip-int h.1) (
      RoundTrip-last _ (
        RoundTrip-All write_field_id read_field_id (λ x. IsId s.field_id_struct x) c.fields
          (λ x h. RoundTrip-field_id h) h.2)))

pub record SourceFileResponse : Type 0 where
  pub source_file : Str

unfoldable pub serialize_source_file_response : SourceFileResponse → Write
serialize_source_file_response c = write_string c.source_file

unfoldable pub deserialize_source_file_response : Read SourceFileResponse
deserialize_source_file_response = do
  source_file ← read_string
  return (record { source_file = source_file })

abbrev pub IsSourceFileResponse : Platform → IdSizesSpec → SourceFileResponse → Type 0
IsSourceFileResponse p s c = IsString c.source_file

pub RoundTrip-source_file_response :
    {p : Platform} {s : IdSizesSpec} {c : SourceFileResponse}
    → IsSourceFileResponse p s c
    → RoundTrip p s (serialize_source_file_response c) deserialize_source_file_response c
unfolding serialize_source_file_response deserialize_source_file_response
RoundTrip-source_file_response h = RoundTrip-last _ (RoundTrip-string h)

pub record SourceFileCommand : Type 0 where
  pub ref_type : ℤ

unfoldable pub serialize_source_file_command : SourceFileCommand → Write
serialize_source_file_command c = write_reference_type_id c.ref_type

unfoldable pub deserialize_source_file_command : Read SourceFileCommand
deserialize_source_file_command = do
  ref_type ← read_reference_type_id
  return (record { ref_type = ref_type })

abbrev pub IsSourceFileCommand : Platform → IdSizesSpec → SourceFileCommand → Type 0
IsSourceFileCommand p s c = IsId s.reference_type_id_struct c.ref_type

pub RoundTrip-source_file_command :
    {p : Platform} {s : IdSizesSpec} {c : SourceFileCommand}
    → IsSourceFileCommand p s c
    → RoundTrip p s (serialize_source_file_command c) deserialize_source_file_command c
unfolding serialize_source_file_command deserialize_source_file_command
RoundTrip-source_file_command h = RoundTrip-last _ (RoundTrip-reference_type_id h)

pub record NestedTypesEntry : Type 0 where
  pub ref_type_tag : JdwpTypeTag
  pub type_id : ℤ

unfoldable pub serialize_nested_types_entry : NestedTypesEntry → Write
serialize_nested_types_entry c = do write_type_tag c.ref_type_tag; write_reference_type_id c.type_id

unfoldable pub deserialize_nested_types_entry : Read NestedTypesEntry
deserialize_nested_types_entry = do
  ref_type_tag ← read_type_tag
  type_id ← read_reference_type_id
  return (record { ref_type_tag = ref_type_tag; type_id = type_id })

abbrev pub IsNestedTypesEntry : Platform → IdSizesSpec → NestedTypesEntry → Type 0
IsNestedTypesEntry p s c = IsId s.reference_type_id_struct c.type_id

pub RoundTrip-nested_types_entry :
    {p : Platform} {s : IdSizesSpec} {c : NestedTypesEntry}
    → IsNestedTypesEntry p s c
    → RoundTrip p s (serialize_nested_types_entry c) deserialize_nested_types_entry c
unfolding serialize_nested_types_entry deserialize_nested_types_entry
RoundTrip-nested_types_entry h =
    RoundTrip-seq _ RoundTrip-type_tag (RoundTrip-last _ (RoundTrip-reference_type_id h))

pub record NestedTypesResponse : Type 0 where
  pub nested_types : List NestedTypesEntry

unfoldable pub serialize_nested_types_response : NestedTypesResponse → Write
serialize_nested_types_response c = do
  write_int (pos (length c.nested_types))
  for_each c.nested_types serialize_nested_types_entry

unfoldable pub deserialize_nested_types_response : Read NestedTypesResponse
deserialize_nested_types_response = do
  num ← read_int
  nested_types ← read_list num deserialize_nested_types_entry
  return (record { nested_types = nested_types })

abbrev pub IsNestedTypesResponse : Platform → IdSizesSpec → NestedTypesResponse → Type 0
IsNestedTypesResponse p s c =
    IsInt (pos (length c.nested_types)) × All (IsNestedTypesEntry p s) c.nested_types

pub RoundTrip-nested_types_response :
    {p : Platform} {s : IdSizesSpec} {c : NestedTypesResponse}
    → IsNestedTypesResponse p s c
    → RoundTrip p s (serialize_nested_types_response c) deserialize_nested_types_response c
unfolding serialize_nested_types_response deserialize_nested_types_response
RoundTrip-nested_types_response {p = p} {s = s} {c = c} h = RoundTrip-seq _ (RoundTrip-int h.0) (
    RoundTrip-last _ (
      RoundTrip-All serialize_nested_types_entry deserialize_nested_types_entry
        (IsNestedTypesEntry p s) c.nested_types (λ x h. RoundTrip-nested_types_entry h) h.1))

pub record NestedTypesCommand : Type 0 where
  pub ref_type : ℤ

unfoldable pub serialize_nested_types_command : NestedTypesCommand → Write
serialize_nested_types_command c = write_reference_type_id c.ref_type

unfoldable pub deserialize_nested_types_command : Read NestedTypesCommand
deserialize_nested_types_command = do
  ref_type ← read_reference_type_id
  return (record { ref_type = ref_type })

abbrev pub IsNestedTypesCommand : Platform → IdSizesSpec → NestedTypesCommand → Type 0
IsNestedTypesCommand p s c = IsId s.reference_type_id_struct c.ref_type

pub RoundTrip-nested_types_command :
    {p : Platform} {s : IdSizesSpec} {c : NestedTypesCommand}
    → IsNestedTypesCommand p s c
    → RoundTrip p s (serialize_nested_types_command c) deserialize_nested_types_command c
unfolding serialize_nested_types_command deserialize_nested_types_command
RoundTrip-nested_types_command h = RoundTrip-last _ (RoundTrip-reference_type_id h)
