-- ===== src/Commands/Registry/ClassObjectReference.antt =====
-- The classes that src/jdwpy/commands/class_object_reference.py registers.
use jdwpy.Prelude.{All, List, [], some, ◌∷◌}
use jdwpy.Constants.ErrorCode.{JdwpErrorCode}
use jdwpy.Commands.ClassObjectReference.Reflected.{
  IsReflectedTypeCommand, IsReflectedTypeResponse, ReflectedTypeCommand, ReflectedTypeResponse,
  RoundTrip-reflected_type_command, RoundTrip-reflected_type_response,
  deserialize_reflected_type_command, deserialize_reflected_type_response,
  serialize_reflected_type_command, serialize_reflected_type_response,
}
use jdwpy.Commands.Registry.{CommandClass, RoundTrips}

abbrev pub reflected_type_class : CommandClass
reflected_type_class = record {
  command_set = 17;
  command = 1;
  allowed_errors = JdwpErrorCode.none ∷ JdwpErrorCode.invalid_object ∷ JdwpErrorCode.vm_dead ∷ [];
  Instance = ReflectedTypeCommand;
  serialize = serialize_reflected_type_command;
  deserialize = deserialize_reflected_type_command;
  IsWritable = IsReflectedTypeCommand;
  response = some (record {
    Instance = ReflectedTypeResponse;
    serialize = serialize_reflected_type_response;
    deserialize = deserialize_reflected_type_response;
    IsWritable = IsReflectedTypeResponse;
  });
}

abbrev pub class_object_reference_classes : List CommandClass
class_object_reference_classes = reflected_type_class ∷ []

pub class_object_reference_classes-RoundTrips : All RoundTrips class_object_reference_classes
class_object_reference_classes-RoundTrips = (
  (λ _ p s c h. RoundTrip-reflected_type_command h, λ p s c h. RoundTrip-reflected_type_response h),
  tt,
)
