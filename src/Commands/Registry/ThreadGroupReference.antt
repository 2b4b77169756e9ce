-- ===== src/Commands/Registry/ThreadGroupReference.antt =====
-- The classes that src/jdwpy/commands/thread_group_reference.py registers.
use jdwpy.Prelude.{All, List, [], some, ◌∷◌}
use jdwpy.Constants.ErrorCode.{JdwpErrorCode}
use jdwpy.Commands.ThreadGroupReference.Groups.{
  ChildrenCommand, ChildrenResponse, IsChildrenCommand, IsChildrenResponse, IsNameCommand,
  IsNameResponse, IsParentCommand, IsParentResponse, NameCommand, NameResponse, ParentCommand,
  ParentResponse, RoundTrip-children_command, RoundTrip-children_response, RoundTrip-name_command,
  RoundTrip-name_response, RoundTrip-parent_command, RoundTrip-parent_response,
  deserialize_children_command, deserialize_children_response, deserialize_name_command,
  deserialize_name_response, deserialize_parent_command, deserialize_parent_response,
  serialize_children_command, serialize_children_response, serialize_name_command,
  serialize_name_response, serialize_parent_command, serialize_parent_response,
}
use jdwpy.Commands.Registry.{CommandClass, RoundTrips}

abbrev pub name_class : CommandClass
name_class = record {
  command_set = 12;
  command = 1;
  allowed_errors =
      JdwpErrorCode.none ∷ JdwpErrorCode.invalid_object ∷ JdwpErrorCode.invalid_thread_group
      ∷ JdwpErrorCode.vm_dead ∷ [];
  Instance = NameCommand;
  serialize = serialize_name_command;
  deserialize = deserialize_name_command;
  IsWritable = IsNameCommand;
  response = some (record {
    Instance = NameResponse;
    serialize = serialize_name_response;
    deserialize = deserialize_name_response;
    IsWritable = IsNameResponse;
  });
}

abbrev pub parent_class : CommandClass
parent_class = record {
  command_set = 12;
  command = 2;
  allowed_errors =
      JdwpErrorCode.none ∷ JdwpErrorCode.invalid_object ∷ JdwpErrorCode.invalid_thread_group
      ∷ JdwpErrorCode.vm_dead ∷ [];
  Instance = ParentCommand;
  serialize = serialize_parent_command;
  deserialize = deserialize_parent_command;
  IsWritable = IsParentCommand;
  response = some (record {
    Instance = ParentResponse;
    serialize = serialize_parent_response;
    deserialize = deserialize_parent_response;
    IsWritable = IsParentResponse;
  });
}

abbrev pub children_class : CommandClass
children_class = record {
  command_set = 12;
  command = 3;
  allowed_errors =
      JdwpErrorCode.none ∷ JdwpErrorCode.invalid_object ∷ JdwpErrorCode.invalid_thread_group
      ∷ JdwpErrorCode.vm_dead ∷ [];
  Instance = ChildrenCommand;
  serialize = serialize_children_command;
  deserialize = deserialize_children_command;
  IsWritable = IsChildrenCommand;
  response = some (record {
    Instance = ChildrenResponse;
    serialize = serialize_children_response;
    deserialize = deserialize_children_response;
    IsWritable = IsChildrenResponse;
  });
}

abbrev pub thread_group_reference_classes : List CommandClass
thread_group_reference_classes = name_class ∷ parent_class ∷ children_class ∷ []

pub thread_group_reference_classes-RoundTrips : All RoundTrips thread_group_reference_classes
thread_group_reference_classes-RoundTrips = (
  (λ _ p s c h. RoundTrip-name_command h, λ p s c h. RoundTrip-name_response h),
  (
    (λ _ p s c h. RoundTrip-parent_command h, λ p s c h. RoundTrip-parent_response h),
    ((λ _ p s c h. RoundTrip-children_command h, λ p s c h. RoundTrip-children_response h), tt),
  ),
)
