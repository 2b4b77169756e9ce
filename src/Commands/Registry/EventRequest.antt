-- ===== src/Commands/Registry/EventRequest.antt =====
-- The classes that src/jdwpy/commands/event_request.py registers.
use jdwpy.Prelude.{All, List, [], some, ◌∷◌}
use jdwpy.Constants.ErrorCode.{JdwpErrorCode}
use jdwpy.Commands.EventRequest.Requests.{
  ClearAllBreakpointsCommand, ClearAllBreakpointsResponse, ClearCommand, ClearResponse,
  IsClearCommand, IsSetCommand, IsSetResponse, RoundTrip-clear_all_breakpoints_command,
  RoundTrip-clear_all_breakpoints_response, RoundTrip-clear_command, RoundTrip-clear_response,
  RoundTrip-set_command, RoundTrip-set_response, SetCommand, SetResponse,
  deserialize_clear_all_breakpoints_command, deserialize_clear_all_breakpoints_response,
  deserialize_clear_command, deserialize_clear_response, deserialize_set_command,
  deserialize_set_response, serialize_clear_all_breakpoints_command,
  serialize_clear_all_breakpoints_response, serialize_clear_command, serialize_clear_response,
  serialize_set_command, serialize_set_response,
}
use jdwpy.Commands.Registry.{CommandClass, RoundTrips}

abbrev pub set_class : CommandClass
set_class = record {
  command_set = 15;
  command = 1;
  allowed_errors =
      JdwpErrorCode.none ∷ JdwpErrorCode.invalid_class ∷ JdwpErrorCode.invalid_count
      ∷ JdwpErrorCode.invalid_event_type ∷ JdwpErrorCode.invalid_fieldid
      ∷ JdwpErrorCode.invalid_location ∷ JdwpErrorCode.invalid_methodid
      ∷ JdwpErrorCode.invalid_object ∷ JdwpErrorCode.invalid_string ∷ JdwpErrorCode.invalid_thread
      ∷ JdwpErrorCode.not_implemented ∷ JdwpErrorCode.vm_dead ∷ [];
  Instance = SetCommand;
  serialize = serialize_set_command;
  deserialize = deserialize_set_command;
  IsWritable = IsSetCommand;
  response = some (record {
    Instance = SetResponse;
    serialize = serialize_set_response;
    deserialize = deserialize_set_response;
    IsWritable = IsSetResponse;
  });
}

abbrev pub clear_class : CommandClass
clear_class = record {
  command_set = 15;
  command = 2;
  allowed_errors =
      JdwpErrorCode.none ∷ JdwpErrorCode.invalid_event_type ∷ JdwpErrorCode.vm_dead ∷ [];
  Instance = ClearCommand;
  serialize = serialize_clear_command;
  deserialize = deserialize_clear_command;
  IsWritable = IsClearCommand;
  response = some (record {
    Instance = ClearResponse;
    serialize = serialize_clear_response;
    deserialize = deserialize_clear_response;
    IsWritable = λ p s c. Unit {0};
  });
}

abbrev pub clear_all_breakpoints_class : CommandClass
clear_all_breakpoints_class = record {
  command_set = 15;
  command = 3;
  allowed_errors = JdwpErrorCode.none ∷ JdwpErrorCode.vm_dead ∷ [];
  Instance = ClearAllBreakpointsCommand;
  serialize = serialize_clear_all_breakpoints_command;
  deserialize = deserialize_clear_all_breakpoints_command;
  IsWritable = λ p s c. Unit {0};
  response = some (record {
    Instance = ClearAllBreakpointsResponse;
    serialize = serialize_clear_all_breakpoints_response;
    deserialize = deserialize_clear_all_breakpoints_response;
    IsWritable = λ p s c. Unit {0};
  });
}

abbrev pub event_request_classes : List CommandClass
event_request_classes = set_class ∷ clear_class ∷ clear_all_breakpoints_class ∷ []

pub event_request_classes-RoundTrips : All RoundTrips event_request_classes
event_request_classes-RoundTrips = (
  (λ _ p s c h. RoundTrip-set_command h, λ p s c h. RoundTrip-set_response h),
  (
    (λ _ p s c h. RoundTrip-clear_command h, λ p s c h. RoundTrip-clear_response c),
    (
      (
        λ _ p s c h. RoundTrip-clear_all_breakpoints_command c,
        λ p s c h. RoundTrip-clear_all_breakpoints_response c,
      ),
      tt,
    ),
  ),
)
