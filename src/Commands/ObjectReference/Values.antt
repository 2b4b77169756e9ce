-- ===== src/Commands/ObjectReference/Values.antt =====
-- src/jdwpy/commands/object_reference.py: ReferenceType, GetValues, SetValues.
use jdwpy.Prelude.{All, List, length}
use jdwpy.Prelude.Int.{pos, ℤ}
use jdwpy.Constants.TypeTag.{JdwpTypeTag}
use jdwpy.Spec.{IdSizesSpec, JdwpValue}
use jdwpy.Io.{Platform, Read, Write, for_each, read_list, return, skip, ◌>>=◌, ◌>>◌}
use jdwpy.Io.Ranges.{IsId, IsInt}
use jdwpy.Io.Reader.{read_field_id, read_int, read_object_id, read_reference_type_id, read_type_tag}
use jdwpy.Io.Writer.{
  write_field_id, write_int, write_object_id, write_reference_type_id, write_type_tag,
}
use jdwpy.Io.Values.{read_value, write_value}
use jdwpy.Io.Codec.{RoundTrip, RoundTrip-All, RoundTrip-last, RoundTrip-return, RoundTrip-seq}
use jdwpy.Io.Primitives.{
  RoundTrip-field_id, RoundTrip-int, RoundTrip-object_id, RoundTrip-reference_type_id,
}
use jdwpy.Io.Fields.{IsValue, RoundTrip-type_tag, RoundTrip-value}

pub record ReferenceTypeResponse : Type 0 where
  pub ref_type_tag : JdwpTypeTag
  pub type_id : ℤ

unfoldable pub serialize_reference_type_response : ReferenceTypeResponse → Write
serialize_reference_type_response c = do
  write_type_tag c.ref_type_tag
  write_reference_type_id c.type_id

unfoldable pub deserialize_reference_type_response : Read ReferenceTypeResponse
deserialize_reference_type_response = do
  ref_type_tag ← read_type_tag
  type_id ← read_reference_type_id
  return (record { ref_type_tag = ref_type_tag; type_id = type_id })

abbrev pub IsReferenceTypeResponse : Platform → IdSizesSpec → ReferenceTypeResponse → Type 0
IsReferenceTypeResponse p s c = IsId s.reference_type_id_struct c.type_id

pub RoundTrip-reference_type_response :
    {p : Platform} {s : IdSizesSpec} {c : ReferenceTypeResponse}
    → IsReferenceTypeResponse p s c
    → RoundTrip p s (serialize_reference_type_response c) deserialize_reference_type_response c
unfolding serialize_reference_type_response deserialize_reference_type_response
RoundTrip-reference_type_response h =
    RoundTrip-seq _ RoundTrip-type_tag (RoundTrip-last _ (RoundTrip-reference_type_id h))

pub record ReferenceTypeCommand : Type 0 where
  pub object : ℤ

unfoldable pub serialize_reference_type_command : ReferenceTypeCommand → Write
serialize_reference_type_command c = write_object_id c.object

unfoldable pub deserialize_reference_type_command : Read ReferenceTypeCommand
deserialize_reference_type_command = do object ← read_object_id; return (record { object = object })

abbrev pub IsReferenceTypeCommand : Platform → IdSizesSpec → ReferenceTypeCommand → Type 0
IsReferenceTypeCommand p s c = IsId s.object_id_struct c.object

pub RoundTrip-reference_type_command :
    {p : Platform} {s : IdSizesSpec} {c : ReferenceTypeCommand}
    → IsReferenceTypeCommand p s c
    → RoundTrip p s (serialize_reference_type_command c) deserialize_reference_type_command c
unfolding serialize_reference_type_command deserialize_reference_type_command
RoundTrip-reference_type_command h = RoundTrip-last _ (RoundTrip-object_id h)

pub record GetValuesResponse : Type 0 where
  pub values : List JdwpValue

unfoldable pub serialize_get_values_response : GetValuesResponse → Write
serialize_get_values_response c = do
  write_int (pos (length c.values))
  for_each c.values write_value

unfoldable pub deserialize_get_values_response : Read GetValuesResponse
deserialize_get_values_response = do
  num ← read_int
  values ← read_list num read_value
  return (record { values = values })

abbrev pub IsGetValuesResponse : Platform → IdSizesSpec → GetValuesResponse → Type 0
IsGetValuesResponse p s c = IsInt (pos (length c.values)) × All (λ x. IsValue p s x) c.values

pub RoundTrip-get_values_response :
    {p : Platform} {s : IdSizesSpec} {c : GetValuesResponse}
    → IsGetValuesResponse p s c
    → RoundTrip p s (serialize_get_values_response c) deserialize_get_values_response c
unfolding serialize_get_values_response deserialize_get_values_response
RoundTrip-get_values_response {p = p} {s = s} {c = c} h = RoundTrip-seq _ (RoundTrip-int h.0) (
    RoundTrip-last _ (
      RoundTrip-All write_value read_value (λ x. IsValue p s x) c.values (λ x h. RoundTrip-value h)
        h.1))

pub record GetValuesCommand : Type 0 where
  pub object : ℤ
  pub fields : List ℤ

unfoldable pub serialize_get_values_command : GetValuesCommand → Write
serialize_get_values_command c = do
  write_object_id c.object
  write_int (pos (length c.fields))
  for_each c.fields write_field_id

unfoldable pub deserialize_get_values_command : Read GetValuesCommand
deserialize_get_values_command = do
  object ← read_object_id
  num ← read_int
  fields ← read_list num read_field_id
  return (record { object = object; fields = fields })

abbrev pub IsGetValuesCommand : Platform → IdSizesSpec → GetValuesCommand → Type 0
IsGetValuesCommand p s c =
    IsId s.object_id_struct c.object
    × IsInt (pos (length c.fields))
    × All (λ x. IsId s.field_id_struct x) c.fields

pub RoundTrip-get_values_command :
    {p : Platform} {s : IdSizesSpec} {c : GetValuesCommand}
    → IsGetValuesCommand p s c
    → RoundTrip p s (serialize_get_values_command c) deserialize_get_values_command c
unfolding serialize_get_values_command deserialize_get_values_command
RoundTrip-get_values_command {s = s} {c = c} h = RoundTrip-seq _ (RoundTrip-object_id h.0) (
    RoundTrip-seq _ (RoundTrip-int h.1) (
      RoundTrip-last _ (
        RoundTrip-All write_field_id read_field_id (λ x. IsId s.field_id_struct x) c.fields
          (λ x h. RoundTrip-field_id h) h.2)))

pub record SetValuesRequestSlot : Type 0 where
  pub field_id : ℤ
  pub value : JdwpValue

unfoldable pub serialize_set_values_request_slot : SetValuesRequestSlot → Write
serialize_set_values_request_slot c = do write_field_id c.field_id; write_value c.value

unfoldable pub deserialize_set_values_request_slot : Read SetValuesRequestSlot
deserialize_set_values_request_slot = do
  field_id ← read_field_id
  value ← read_value
  return (record { field_id = field_id; value = value })

abbrev pub IsSetValuesRequestSlot : Platform → IdSizesSpec → SetValuesRequestSlot → Type 0
IsSetValuesRequestSlot p s c = IsId s.field_id_struct c.field_id × IsValue p s c.value

pub RoundTrip-set_values_request_slot :
    {p : Platform} {s : IdSizesSpec} {c : SetValuesRequestSlot}
    → IsSetValuesRequestSlot p s c
    → RoundTrip p s (serialize_set_values_request_slot c) deserialize_set_values_request_slot c
unfolding serialize_set_values_request_slot deserialize_set_values_request_slot
RoundTrip-set_values_request_slot h =
    RoundTrip-seq _ (RoundTrip-field_id h.0) (RoundTrip-last _ (RoundTrip-value h.1))

pub data SetValuesResponse : Type 0 where
  set_values_response : SetValuesResponse

unfoldable pub serialize_set_values_response : SetValuesResponse → Write
serialize_set_values_response _ = skip

unfoldable pub deserialize_set_values_response : Read SetValuesResponse
deserialize_set_values_response = return set_values_response

pub RoundTrip-set_values_response :
    {p : Platform} {s : IdSizesSpec} (c : SetValuesResponse)
    → RoundTrip p s (serialize_set_values_response c) deserialize_set_values_response c
unfolding serialize_set_values_response deserialize_set_values_response
RoundTrip-set_values_response set_values_response = RoundTrip-return set_values_response

pub record SetValuesCommand : Type 0 where
  pub object : ℤ
  pub slots : List SetValuesRequestSlot

unfoldable pub serialize_set_values_command : SetValuesCommand → Write
serialize_set_values_command c = do
  write_object_id c.object
  write_int (pos (length c.slots))
  for_each c.slots serialize_set_values_request_slot

unfoldable pub deserialize_set_values_command : Read SetValuesCommand
deserialize_set_values_command = do
  object ← read_object_id
  num ← read_int
  slots ← read_list num deserialize_set_values_request_slot
  return (record { object = object; slots = slots })

abbrev pub IsSetValuesCommand : Platform → IdSizesSpec → SetValuesCommand → Type 0
IsSetValuesCommand p s c =
    IsId s.object_id_struct c.object
    × IsInt (pos (length c.slots))
    × All (IsSetValuesRequestSlot p s) c.slots

pub RoundTrip-set_values_command :
    {p : Platform} {s : IdSizesSpec} {c : SetValuesCommand}
    → IsSetValuesCommand p s c
    → RoundTrip p s (serialize_set_values_command c) deserialize_set_values_command c
unfolding serialize_set_values_command deserialize_set_values_command
RoundTrip-set_values_command {p = p} {s = s} {c = c} h = RoundTrip-seq _ (RoundTrip-object_id h.0) (
    RoundTrip-seq _ (RoundTrip-int h.1) (
      RoundTrip-last _ (
        RoundTrip-All serialize_set_values_request_slot deserialize_set_values_request_slot
          (IsSetValuesRequestSlot p s) c.slots (λ x h. RoundTrip-set_values_request_slot h) h.2)))
