-- ===== src/Commands/ClassType/Values.antt =====
-- src/jdwpy/commands/class_type.py: Superclass, SetValues.
use jdwpy.Prelude.{All, List, length}
use jdwpy.Prelude.Int.{pos, ℤ}
use jdwpy.Spec.{IdSizesSpec, JdwpValue}
use jdwpy.Io.{Platform, Read, Write, for_each, read_list, return, skip, ◌>>=◌, ◌>>◌}
use jdwpy.Io.Ranges.{IsId, IsInt}
use jdwpy.Io.Reader.{read_class_id, read_field_id, read_int}
use jdwpy.Io.Writer.{write_class_id, write_field_id, write_int}
use jdwpy.Io.Values.{read_value, write_value}
use jdwpy.Io.Codec.{RoundTrip, RoundTrip-All, RoundTrip-last, RoundTrip-return, RoundTrip-seq}
use jdwpy.Io.Primitives.{RoundTrip-field_id, RoundTrip-int, RoundTrip-reference_type_id}
use jdwpy.Io.Fields.{IsValue, RoundTrip-value}

pub record SuperclassResponse : Type 0 where
  pub superclass : ℤ

unfoldable pub serialize_superclass_response : SuperclassResponse → Write
serialize_superclass_response c = write_class_id c.superclass

unfoldable pub deserialize_superclass_response : Read SuperclassResponse
deserialize_superclass_response = do
  superclass ← read_class_id
  return (record { superclass = superclass })

abbrev pub IsSuperclassResponse : Platform → IdSizesSpec → SuperclassResponse → Type 0
IsSuperclassResponse p s c = IsId s.reference_type_id_struct c.superclass

pub RoundTrip-superclass_response :
    {p : Platform} {s : IdSizesSpec} {c : SuperclassResponse}
    → IsSuperclassResponse p s c
    → RoundTrip p s (serialize_superclass_response c) deserialize_superclass_response c
unfolding serialize_superclass_response deserialize_superclass_response
RoundTrip-superclass_response h = RoundTrip-last _ (RoundTrip-reference_type_id h)

pub record SuperclassCommand : Type 0 where
  pub clazz : ℤ

unfoldable pub serialize_superclass_command : SuperclassCommand → Write
serialize_superclass_command c = write_class_id c.clazz

unfoldable pub deserialize_superclass_command : Read SuperclassCommand
deserialize_superclass_command = do clazz ← read_class_id; return (record { clazz = clazz })

abbrev pub IsSuperclassCommand : Platform → IdSizesSpec → SuperclassCommand → Type 0
IsSuperclassCommand p s c = IsId s.reference_type_id_struct c.clazz

pub RoundTrip-superclass_command :
    {p : Platform} {s : IdSizesSpec} {c : SuperclassCommand}
    → IsSuperclassCommand p s c
    → RoundTrip p s (serialize_superclass_command c) deserialize_superclass_command c
unfolding serialize_superclass_command deserialize_superclass_command
RoundTrip-superclass_command h = RoundTrip-last _ (RoundTrip-reference_type_id h)

pub record SetValuesRequestSlot : Type 0 where
  pub field_id : ℤ
  pub value : JdwpValue

unfoldable pub serialize_set_values_request_slot : SetValuesRequestSlot → Write
serialize_set_values_request_slot c = do write_field_id c.field_id; write_value c.value

unfoldable pub deserialize_set_values_request_slot : Read SetValuesRequestSlot
deserialize_set_values_request_slot = do
  field_id ← read_field_id
  value ← read_value
  return (record { field_id = field_id; value = value })

abbrev pub IsSetValuesRequestSlot : Platform → IdSizesSpec → SetValuesRequestSlot → Type 0
IsSetValuesRequestSlot p s c = IsId s.field_id_struct c.field_id × IsValue p s c.value

pub RoundTrip-set_values_request_slot :
    {p : Platform} {s : IdSizesSpec} {c : SetValuesRequestSlot}
    → IsSetValuesRequestSlot p s c
    → RoundTrip p s (serialize_set_values_request_slot c) deserialize_set_values_request_slot c
unfolding serialize_set_values_request_slot deserialize_set_values_request_slot
RoundTrip-set_values_request_slot h =
    RoundTrip-seq _ (RoundTrip-field_id h.0) (RoundTrip-last _ (RoundTrip-value h.1))

pub data SetValuesResponse : Type 0 where
  set_values_response : SetValuesResponse

unfoldable pub serialize_set_values_response : SetValuesResponse → Write
serialize_set_values_response _ = skip

unfoldable pub deserialize_set_values_response : Read SetValuesResponse
deserialize_set_values_response = return set_values_response

pub RoundTrip-set_values_response :
    {p : Platform} {s : IdSizesSpec} (c : SetValuesResponse)
    → RoundTrip p s (serialize_set_values_response c) deserialize_set_values_response c
unfolding serialize_set_values_response deserialize_set_values_response
RoundTrip-set_values_response set_values_response = RoundTrip-return set_values_response

pub record SetValuesCommand : Type 0 where
  pub clazz : ℤ
  pub slots : List SetValuesRequestSlot

unfoldable pub serialize_set_values_command : SetValuesCommand → Write
serialize_set_values_command c = do
  write_class_id c.clazz
  write_int (pos (length c.slots))
  for_each c.slots serialize_set_values_request_slot

unfoldable pub deserialize_set_values_command : Read SetValuesCommand
deserialize_set_values_command = do
  clazz ← read_class_id
  num ← read_int
  slots ← read_list num deserialize_set_values_request_slot
  return (record { clazz = clazz; slots = slots })

abbrev pub IsSetValuesCommand : Platform → IdSizesSpec → SetValuesCommand → Type 0
IsSetValuesCommand p s c =
    IsId s.reference_type_id_struct c.clazz
    × IsInt (pos (length c.slots))
    × All (IsSetValuesRequestSlot p s) c.slots

pub RoundTrip-set_values_command :
    {p : Platform} {s : IdSizesSpec} {c : SetValuesCommand}
    → IsSetValuesCommand p s c
    → RoundTrip p s (serialize_set_values_command c) deserialize_set_values_command c
unfolding serialize_set_values_command deserialize_set_values_command
RoundTrip-set_values_command {p = p} {s = s} {c = c} h =
    RoundTrip-seq _ (RoundTrip-reference_type_id h.0) (
      RoundTrip-seq _ (RoundTrip-int h.1) (
        RoundTrip-last _ (
          RoundTrip-All serialize_set_values_request_slot deserialize_set_values_request_slot
            (IsSetValuesRequestSlot p s) c.slots (λ x h. RoundTrip-set_values_request_slot h) h.2)))
