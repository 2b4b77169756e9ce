-- ===== src/Commands/StringReference/Text.antt =====
-- src/jdwpy/commands/string_reference.py: Value.
use jdwpy.Prelude.Int.{ℤ}
use jdwpy.Utf8.{Str}
use jdwpy.Spec.{IdSizesSpec}
use jdwpy.Io.{Platform, Read, Write, return, ◌>>=◌}
use jdwpy.Io.Ranges.{IsId, IsString}
use jdwpy.Io.Reader.{read_string, read_string_id}
use jdwpy.Io.Writer.{write_string, write_string_id}
use jdwpy.Io.Codec.{RoundTrip, RoundTrip-last}
use jdwpy.Io.Primitives.{RoundTrip-object_id, RoundTrip-string}

pub record ValueResponse : Type 0 where
  pub string_value : Str

unfoldable pub serialize_value_response : ValueResponse → Write
serialize_value_response c = write_string c.string_value

unfoldable pub deserialize_value_response : Read ValueResponse
deserialize_value_response = do
  string_value ← read_string
  return (record { string_value = string_value })

abbrev pub IsValueResponse : Platform → IdSizesSpec → ValueResponse → Type 0
IsValueResponse p s c = IsString c.string_value

pub RoundTrip-value_response :
    {p : Platform} {s : IdSizesSpec} {c : ValueResponse}
    → IsValueResponse p s c
    → RoundTrip p s (serialize_value_response c) deserialize_value_response c
unfolding serialize_value_response deserialize_value_response
RoundTrip-value_response h = RoundTrip-last _ (RoundTrip-string h)

pub record ValueCommand : Type 0 where
  pub string_object : ℤ

unfoldable pub serialize_value_command : ValueCommand → Write
serialize_value_command c = write_string_id c.string_object

unfoldable pub deserialize_value_command : Read ValueCommand
deserialize_value_command = do
  string_object ← read_string_id
  return (record { string_object = string_object })

abbrev pub IsValueCommand : Platform → IdSizesSpec → ValueCommand → Type 0
IsValueCommand p s c = IsId s.object_id_struct c.string_object

pub RoundTrip-value_command :
    {p : Platform} {s : IdSizesSpec} {c : ValueCommand}
    → IsValueCommand p s c
    → RoundTrip p s (serialize_value_command c) deserialize_value_command c
unfolding serialize_value_command deserialize_value_command
RoundTrip-value_command h = RoundTrip-last _ (RoundTrip-object_id h)
