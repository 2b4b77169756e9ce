-- ===== src/Commands/Registry/ClassLoaderReference.antt =====
-- The classes that src/jdwpy/commands/class_loader_reference.py registers.
use jdwpy.Prelude.{All, List, [], some, ◌∷◌}
use jdwpy.Constants.ErrorCode.{JdwpErrorCode}
use jdwpy.Commands.ClassLoaderReference.Visible.{
  IsVisibleClassesCommand, IsVisibleClassesResponse, RoundTrip-visible_classes_command,
  RoundTrip-visible_classes_response, VisibleClassesCommand, VisibleClassesResponse,
  deserialize_visible_classes_command, deserialize_visible_classes_response,
  serialize_visible_classes_command, serialize_visible_classes_response,
}
use jdwpy.Commands.Registry.{CommandClass, RoundTrips}

abbrev pub visible_classes_class : CommandClass
visible_classes_class = record {
  command_set = 14;
  command = 1;
  allowed_errors =
      JdwpErrorCode.none ∷ JdwpErrorCode.invalid_class_loader ∷ JdwpErrorCode.invalid_object
      ∷ JdwpErrorCode.vm_dead ∷ [];
  Instance = VisibleClassesCommand;
  serialize = serialize_visible_classes_command;
  deserialize = deserialize_visible_classes_command;
  IsWritable = IsVisibleClassesCommand;
  response = some (record {
    Instance = VisibleClassesResponse;
    serialize = serialize_visible_classes_response;
    deserialize = deserialize_visible_classes_response;
    IsWritable = IsVisibleClassesResponse;
  });
}

abbrev pub class_loader_reference_classes : List CommandClass
class_loader_reference_classes = visible_classes_class ∷ []

pub class_loader_reference_classes-RoundTrips : All RoundTrips class_loader_reference_classes
class_loader_reference_classes-RoundTrips = (
  (
    λ _ p s c h. RoundTrip-visible_classes_command h,
    λ p s c h. RoundTrip-visible_classes_response h,
  ),
  tt,
)
