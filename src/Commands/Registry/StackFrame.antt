-- ===== src/Commands/Registry/StackFrame.antt =====
-- The classes that src/jdwpy/commands/stack_frame.py registers.
use jdwpy.Prelude.{All, List, [], some, ◌∷◌}
use jdwpy.Constants.ErrorCode.{JdwpErrorCode}
use jdwpy.Commands.StackFrame.Values.{
  GetValuesCommand, GetValuesResponse, IsGetValuesCommand, IsGetValuesResponse, IsSetValuesCommand,
  RoundTrip-get_values_command, RoundTrip-get_values_response, RoundTrip-set_values_command,
  RoundTrip-set_values_response, SetValuesCommand, SetValuesResponse,
  deserialize_get_values_command, deserialize_get_values_response, deserialize_set_values_command,
  deserialize_set_values_response, serialize_get_values_command, serialize_get_values_response,
  serialize_set_values_command, serialize_set_values_response,
}
use jdwpy.Commands.StackFrame.Frames.{
  IsPopFramesCommand, IsThisObjectCommand, IsThisObjectResponse, PopFramesCommand,
  PopFramesResponse, RoundTrip-pop_frames_command, RoundTrip-pop_frames_response,
  RoundTrip-this_object_command, RoundTrip-this_object_response, ThisObjectCommand,
  ThisObjectResponse, deserialize_pop_frames_command, deserialize_pop_frames_response,
  deserialize_this_object_command, deserialize_this_object_response, serialize_pop_frames_command,
  serialize_pop_frames_response, serialize_this_object_command, serialize_this_object_response,
}
use jdwpy.Commands.Registry.{CommandClass, RoundTrips}

abbrev pub get_values_class : CommandClass
get_values_class = record {
  command_set = 16;
  command = 1;
  allowed_errors =
      JdwpErrorCode.none ∷ JdwpErrorCode.invalid_frameid ∷ JdwpErrorCode.invalid_object
      ∷ JdwpErrorCode.invalid_slot ∷ JdwpErrorCode.invalid_thread ∷ JdwpErrorCode.vm_dead ∷ [];
  Instance = GetValuesCommand;
  serialize = serialize_get_values_command;
  deserialize = deserialize_get_values_command;
  IsWritable = IsGetValuesCommand;
  response = some (record {
    Instance = GetValuesResponse;
    serialize = serialize_get_values_response;
    deserialize = deserialize_get_values_response;
    IsWritable = IsGetValuesResponse;
  });
}

abbrev pub set_values_class : CommandClass
set_values_class = record {
  command_set = 16;
  command = 2;
  allowed_errors =
      JdwpErrorCode.none ∷ JdwpErrorCode.invalid_frameid ∷ JdwpErrorCode.invalid_object
      ∷ JdwpErrorCode.invalid_thread ∷ JdwpErrorCode.opaque_frame ∷ JdwpErrorCode.vm_dead ∷ [];
  Instance = SetValuesCommand;
  serialize = serialize_set_values_command;
  deserialize = deserialize_set_values_command;
  IsWritable = IsSetValuesCommand;
  response = some (record {
    Instance = SetValuesResponse;
    serialize = serialize_set_values_response;
    deserialize = deserialize_set_values_response;
    IsWritable = λ p s c. Unit {0};
  });
}

abbrev pub this_object_class : CommandClass
this_object_class = record {
  command_set = 16;
  command = 3;
  allowed_errors =
      JdwpErrorCode.none ∷ JdwpErrorCode.invalid_frameid ∷ JdwpErrorCode.invalid_object
      ∷ JdwpErrorCode.invalid_thread ∷ JdwpErrorCode.vm_dead ∷ [];
  Instance = ThisObjectCommand;
  serialize = serialize_this_object_command;
  deserialize = deserialize_this_object_command;
  IsWritable = IsThisObjectCommand;
  response = some (record {
    Instance = ThisObjectResponse;
    serialize = serialize_this_object_response;
    deserialize = deserialize_this_object_response;
    IsWritable = IsThisObjectResponse;
  });
}

abbrev pub pop_frames_class : CommandClass
pop_frames_class = record {
  command_set = 16;
  command = 4;
  allowed_errors =
      JdwpErrorCode.none ∷ JdwpErrorCode.invalid_frameid ∷ JdwpErrorCode.invalid_object
      ∷ JdwpErrorCode.invalid_thread ∷ JdwpErrorCode.not_implemented ∷ JdwpErrorCode.no_more_frames
      ∷ JdwpErrorCode.opaque_frame ∷ JdwpErrorCode.thread_not_suspended ∷ JdwpErrorCode.vm_dead
      ∷ [];
  Instance = PopFramesCommand;
  serialize = serialize_pop_frames_command;
  deserialize = deserialize_pop_frames_command;
  IsWritable = IsPopFramesCommand;
  response = some (record {
    Instance = PopFramesResponse;
    serialize = serialize_pop_frames_response;
    deserialize = deserialize_pop_frames_response;
    IsWritable = λ p s c. Unit {0};
  });
}

abbrev pub stack_frame_classes : List CommandClass
stack_frame_classes =
    get_values_class ∷ set_values_class ∷ this_object_class ∷ pop_frames_class ∷ []

pub stack_frame_classes-RoundTrips : All RoundTrips stack_frame_classes
stack_frame_classes-RoundTrips = (
  (λ _ p s c h. RoundTrip-get_values_command h, λ p s c h. RoundTrip-get_values_response h),
  (
    (λ _ p s c h. RoundTrip-set_values_command h, λ p s c h. RoundTrip-set_values_response c),
    (
      (λ _ p s c h. RoundTrip-this_object_command h, λ p s c h. RoundTrip-this_object_response h),
      (
        (λ _ p s c h. RoundTrip-pop_frames_command h, λ p s c h. RoundTrip-pop_frames_response c),
        tt,
      ),
    ),
  ),
)
