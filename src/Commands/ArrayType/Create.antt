-- ===== src/Commands/ArrayType/Create.antt =====
-- src/jdwpy/commands/array_type.py: NewInstance.
use jdwpy.Prelude.{length}
use jdwpy.Prelude.Int.{ℤ}
use jdwpy.Spec.{IdSizesSpec}
use jdwpy.Io.{Platform, Read, Write, return, ◌>>=◌, ◌>>◌}
use jdwpy.Io.Ranges.{IsId, IsInt}
use jdwpy.Io.Reader.{read_array_object_id, read_array_type_id, read_int}
use jdwpy.Io.Writer.{write_array_object_id, write_array_type_id, write_int}
use jdwpy.Io.Codec.{RoundTrip, RoundTrip-last, RoundTrip-seq}
use jdwpy.Io.Primitives.{RoundTrip-int, RoundTrip-object_id, RoundTrip-reference_type_id}

pub record NewInstanceResponse : Type 0 where
  pub new_array : ℤ

unfoldable pub serialize_new_instance_response : NewInstanceResponse → Write
serialize_new_instance_response c = write_array_object_id c.new_array

unfoldable pub deserialize_new_instance_response : Read NewInstanceResponse
deserialize_new_instance_response = do
  new_array ← read_array_object_id
  return (record { new_array = new_array })

abbrev pub IsNewInstanceResponse : Platform → IdSizesSpec → NewInstanceResponse → Type 0
IsNewInstanceResponse p s c = IsId s.object_id_struct c.new_array

pub RoundTrip-new_instance_response :
    {p : Platform} {s : IdSizesSpec} {c : NewInstanceResponse}
    → IsNewInstanceResponse p s c
    → RoundTrip p s (serialize_new_instance_response c) deserialize_new_instance_response c
unfolding serialize_new_instance_response deserialize_new_instance_response
RoundTrip-new_instance_response h = RoundTrip-last _ (RoundTrip-object_id h)

pub record NewInstanceCommand : Type 0 where
  pub arr_type : ℤ
  pub length : ℤ

unfoldable pub serialize_new_instance_command : NewInstanceCommand → Write
serialize_new_instance_command c = do write_array_type_id c.arr_type; write_int c.length

unfoldable pub deserialize_new_instance_command : Read NewInstanceCommand
deserialize_new_instance_command = do
  arr_type ← read_array_type_id
  length ← read_int
  return (record { arr_type = arr_type; length = length })

abbrev pub IsNewInstanceCommand : Platform → IdSizesSpec → NewInstanceCommand → Type 0
IsNewInstanceCommand p s c = IsId s.reference_type_id_struct c.arr_type × IsInt c.length

pub RoundTrip-new_instance_command :
    {p : Platform} {s : IdSizesSpec} {c : NewInstanceCommand}
    → IsNewInstanceCommand p s c
    → RoundTrip p s (serialize_new_instance_command c) deserialize_new_instance_command c
unfolding serialize_new_instance_command deserialize_new_instance_command
RoundTrip-new_instance_command h =
    RoundTrip-seq _ (RoundTrip-reference_type_id h.0) (RoundTrip-last _ (RoundTrip-int h.1))
