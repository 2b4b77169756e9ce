-- ===== src/Commands/ArrayReference/Length.antt =====
-- src/jdwpy/commands/array_reference.py: Length, the GetValues command, the SetValues reply.
use jdwpy.Prelude.{length}
use jdwpy.Prelude.Int.{ℤ}
use jdwpy.Spec.{IdSizesSpec}
use jdwpy.Io.{Platform, Read, Write, return, skip, ◌>>=◌, ◌>>◌}
use jdwpy.Io.Ranges.{IsId, IsInt}
use jdwpy.Io.Reader.{read_array_object_id, read_int}
use jdwpy.Io.Writer.{write_array_object_id, write_int}
use jdwpy.Io.Codec.{RoundTrip, RoundTrip-last, RoundTrip-return, RoundTrip-seq}
use jdwpy.Io.Primitives.{RoundTrip-int, RoundTrip-object_id}

pub record LengthResponse : Type 0 where
  pub array_length : ℤ

unfoldable pub serialize_length_response : LengthResponse → Write
serialize_length_response c = write_int c.array_length

unfoldable pub deserialize_length_response : Read LengthResponse
deserialize_length_response = do
  array_length ← read_int
  return (record { array_length = array_length })

abbrev pub IsLengthResponse : Platform → IdSizesSpec → LengthResponse → Type 0
IsLengthResponse p s c = IsInt c.array_length

pub RoundTrip-length_response :
    {p : Platform} {s : IdSizesSpec} {c : LengthResponse}
    → IsLengthResponse p s c
    → RoundTrip p s (serialize_length_response c) deserialize_length_response c
unfolding serialize_length_response deserialize_length_response
RoundTrip-length_response h = RoundTrip-last _ (RoundTrip-int h)

pub record LengthCommand : Type 0 where
  pub array_object : ℤ

unfoldable pub serialize_length_command : LengthCommand → Write
serialize_length_command c = write_array_object_id c.array_object

unfoldable pub deserialize_length_command : Read LengthCommand
deserialize_length_command = do
  array_object ← read_array_object_id
  return (record { array_object = array_object })

abbrev pub IsLengthCommand : Platform → IdSizesSpec → LengthCommand → Type 0
IsLengthCommand p s c = IsId s.object_id_struct c.array_object

pub RoundTrip-length_command :
    {p : Platform} {s : IdSizesSpec} {c : LengthCommand}
    → IsLengthCommand p s c
    → RoundTrip p s (serialize_length_command c) deserialize_length_command c
unfolding serialize_length_command deserialize_length_command
RoundTrip-length_command h = RoundTrip-last _ (RoundTrip-object_id h)

pub record GetValuesCommand : Type 0 where
  pub array_object : ℤ
  pub first_index : ℤ
  pub length : ℤ

unfoldable pub serialize_get_values_command : GetValuesCommand → Write
serialize_get_values_command c = do
  write_array_object_id c.array_object
  write_int c.first_index
  write_int c.length

unfoldable pub deserialize_get_values_command : Read GetValuesCommand
deserialize_get_values_command = do
  array_object ← read_array_object_id
  first_index ← read_int
  length ← read_int
  return (record { array_object = array_object; first_index = first_index; length = length })

abbrev pub IsGetValuesCommand : Platform → IdSizesSpec → GetValuesCommand → Type 0
IsGetValuesCommand p s c =
    IsId s.object_id_struct c.array_object × IsInt c.first_index × IsInt c.length

pub RoundTrip-get_values_command :
    {p : Platform} {s : IdSizesSpec} {c : GetValuesCommand}
    → IsGetValuesCommand p s c
    → RoundTrip p s (serialize_get_values_command c) deserialize_get_values_command c
unfolding serialize_get_values_command deserialize_get_values_command
RoundTrip-get_values_command h =
    RoundTrip-seq _ (RoundTrip-object_id h.0)
      (RoundTrip-seq _ (RoundTrip-int h.1) (RoundTrip-last _ (RoundTrip-int h.2)))

pub data SetValuesResponse : Type 0 where
  set_values_response : SetValuesResponse

unfoldable pub serialize_set_values_response : SetValuesResponse → Write
serialize_set_values_response _ = skip

unfoldable pub deserialize_set_values_response : Read SetValuesResponse
deserialize_set_values_response = return set_values_response

pub RoundTrip-set_values_response :
    {p : Platform} {s : IdSizesSpec} (c : SetValuesResponse)
    → RoundTrip p s (serialize_set_values_response c) deserialize_set_values_response c
unfolding serialize_set_values_response deserialize_set_values_response
RoundTrip-set_values_response set_values_response = RoundTrip-return set_values_response
