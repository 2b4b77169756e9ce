-- ===== src/Commands/Registry/ArrayType.antt =====
-- The classes that src/jdwpy/commands/array_type.py registers.
use jdwpy.Prelude.{All, List, [], some, ◌∷◌}
use jdwpy.Constants.ErrorCode.{JdwpErrorCode}
use jdwpy.Commands.ArrayType.Create.{
  IsNewInstanceCommand, IsNewInstanceResponse, NewInstanceCommand, NewInstanceResponse,
  RoundTrip-new_instance_command, RoundTrip-new_instance_response, deserialize_new_instance_command,
  deserialize_new_instance_response, serialize_new_instance_command,
  serialize_new_instance_response,
}
use jdwpy.Commands.Registry.{CommandClass, RoundTrips}

abbrev pub new_instance_class : CommandClass
new_instance_class = record {
  command_set = 4;
  command = 1;
  allowed_errors =
      JdwpErrorCode.none ∷ JdwpErrorCode.invalid_array ∷ JdwpErrorCode.invalid_object
      ∷ JdwpErrorCode.vm_dead ∷ [];
  Instance = NewInstanceCommand;
  serialize = serialize_new_instance_command;
  deserialize = deserialize_new_instance_command;
  IsWritable = IsNewInstanceCommand;
  response = some (record {
    Instance = NewInstanceResponse;
    serialize = serialize_new_instance_response;
    deserialize = deserialize_new_instance_response;
    IsWritable = IsNewInstanceResponse;
  });
}

abbrev pub array_type_classes : List CommandClass
array_type_classes = new_instance_class ∷ []

pub array_type_classes-RoundTrips : All RoundTrips array_type_classes
array_type_classes-RoundTrips = (
  (λ _ p s c h. RoundTrip-new_instance_command h, λ p s c h. RoundTrip-new_instance_response h),
  tt,
)
