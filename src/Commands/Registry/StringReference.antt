-- ===== src/Commands/Registry/StringReference.antt =====
-- The classes that src/jdwpy/commands/string_reference.py registers.
use jdwpy.Prelude.{All, List, [], some, ◌∷◌}
use jdwpy.Constants.ErrorCode.{JdwpErrorCode}
use jdwpy.Commands.StringReference.Text.{
  IsValueCommand, IsValueResponse, RoundTrip-value_command, RoundTrip-value_response, ValueCommand,
  ValueResponse, deserialize_value_command, deserialize_value_response, serialize_value_command,
  serialize_value_response,
}
use jdwpy.Commands.Registry.{CommandClass, RoundTrips}

abbrev pub value_class : CommandClass
value_class = record {
  command_set = 10;
  command = 1;
  allowed_errors =
      JdwpErrorCode.none ∷ JdwpErrorCode.invalid_object ∷ JdwpErrorCode.invalid_string
      ∷ JdwpErrorCode.vm_dead ∷ [];
  Instance = ValueCommand;
  serialize = serialize_value_command;
  deserialize = deserialize_value_command;
  IsWritable = IsValueCommand;
  response = some (record {
    Instance = ValueResponse;
    serialize = serialize_value_response;
    deserialize = deserialize_value_response;
    IsWritable = IsValueResponse;
  });
}

abbrev pub string_reference_classes : List CommandClass
string_reference_classes = value_class ∷ []

pub string_reference_classes-RoundTrips : All RoundTrips string_reference_classes
string_reference_classes-RoundTrips =
    ((λ _ p s c h. RoundTrip-value_command h, λ p s c h. RoundTrip-value_response h), tt)
