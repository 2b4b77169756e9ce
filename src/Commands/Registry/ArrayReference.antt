-- ===== src/Commands/Registry/ArrayReference.antt =====
-- The classes that src/jdwpy/commands/array_reference.py registers.
use jdwpy.Prelude.{All, List, [], some, ◌∷◌}
use jdwpy.Constants.ErrorCode.{JdwpErrorCode}
use jdwpy.Commands.ArrayReference.Length.{
  GetValuesCommand, IsGetValuesCommand, IsLengthCommand, IsLengthResponse, LengthCommand,
  LengthResponse, RoundTrip-get_values_command, RoundTrip-length_command, RoundTrip-length_response,
  RoundTrip-set_values_response, SetValuesResponse, deserialize_get_values_command,
  deserialize_length_command, deserialize_length_response, deserialize_set_values_response,
  serialize_get_values_command, serialize_length_command, serialize_length_response,
  serialize_set_values_response,
}
use jdwpy.Commands.ArrayReference.Region.{
  GetValuesResponse, IsGetValuesResponse, RoundTrip-get_values_response,
  deserialize_get_values_response, serialize_get_values_response,
}
use jdwpy.Commands.Registry.{CommandClass, RoundTrips}
use jdwpy.Commands.ArrayReference.SetValues.{
  IsSetValuesCommand, SetValuesCommand, deserialize_set_values_command,
  serialize_set_values_command,
}

abbrev pub length_class : CommandClass
length_class = record {
  command_set = 13;
  command = 1;
  allowed_errors =
      JdwpErrorCode.none ∷ JdwpErrorCode.invalid_array ∷ JdwpErrorCode.invalid_object
      ∷ JdwpErrorCode.vm_dead ∷ [];
  Instance = LengthCommand;
  serialize = serialize_length_command;
  deserialize = deserialize_length_command;
  IsWritable = IsLengthCommand;
  response = some (record {
    Instance = LengthResponse;
    serialize = serialize_length_response;
    deserialize = deserialize_length_response;
    IsWritable = IsLengthResponse;
  });
}

abbrev pub get_values_class : CommandClass
get_values_class = record {
  command_set = 13;
  command = 2;
  allowed_errors =
      JdwpErrorCode.none ∷ JdwpErrorCode.invalid_array ∷ JdwpErrorCode.invalid_length
      ∷ JdwpErrorCode.invalid_object ∷ JdwpErrorCode.vm_dead ∷ [];
  Instance = GetValuesCommand;
  serialize = serialize_get_values_command;
  deserialize = deserialize_get_values_command;
  IsWritable = IsGetValuesCommand;
  response = some (record {
    Instance = GetValuesResponse;
    serialize = serialize_get_values_response;
    deserialize = deserialize_get_values_response;
    IsWritable = IsGetValuesResponse;
  });
}

abbrev pub set_values_class : CommandClass
set_values_class = record {
  command_set = 13;
  command = 3;
  allowed_errors =
      JdwpErrorCode.none ∷ JdwpErrorCode.invalid_array ∷ JdwpErrorCode.invalid_length
      ∷ JdwpErrorCode.invalid_object ∷ JdwpErrorCode.vm_dead ∷ [];
  Instance = SetValuesCommand;
  serialize = serialize_set_values_command;
  deserialize = deserialize_set_values_command;
  IsWritable = IsSetValuesCommand;
  response = some (record {
    Instance = SetValuesResponse;
    serialize = serialize_set_values_response;
    deserialize = deserialize_set_values_response;
    IsWritable = λ p s c. Unit {0};
  });
}

abbrev pub array_reference_classes : List CommandClass
array_reference_classes = length_class ∷ get_values_class ∷ set_values_class ∷ []

pub array_reference_classes-RoundTrips : All RoundTrips array_reference_classes
array_reference_classes-RoundTrips = (
  (λ _ p s c h. RoundTrip-length_command h, λ p s c h. RoundTrip-length_response h),
  (
    (λ _ p s c h. RoundTrip-get_values_command h, λ p s c h. RoundTrip-get_values_response h),
    ((λ other. absurd (cc (other)), λ p s c h. RoundTrip-set_values_response c), tt),
  ),
)
