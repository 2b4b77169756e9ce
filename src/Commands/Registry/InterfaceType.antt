-- ===== src/Commands/Registry/InterfaceType.antt =====
-- The classes that src/jdwpy/commands/interface_type.py registers.
use jdwpy.Prelude.{All, List, [], some, ◌∷◌}
use jdwpy.Constants.ErrorCode.{JdwpErrorCode}
use jdwpy.Commands.InterfaceType.Invoke.{
  InvokeMethodCommand, InvokeMethodResponse, IsInvokeMethodCommand, IsInvokeMethodResponse,
  RoundTrip-invoke_method_command, RoundTrip-invoke_method_response,
  deserialize_invoke_method_command, deserialize_invoke_method_response,
  serialize_invoke_method_command, serialize_invoke_method_response,
}
use jdwpy.Commands.Registry.{CommandClass, RoundTrips}

abbrev pub invoke_method_class : CommandClass
invoke_method_class = record {
  command_set = 5;
  command = 1;
  allowed_errors =
      JdwpErrorCode.none ∷ JdwpErrorCode.invalid_class ∷ JdwpErrorCode.invalid_methodid
      ∷ JdwpErrorCode.invalid_object ∷ JdwpErrorCode.invalid_thread
      ∷ JdwpErrorCode.thread_not_suspended ∷ JdwpErrorCode.vm_dead ∷ [];
  Instance = InvokeMethodCommand;
  serialize = serialize_invoke_method_command;
  deserialize = deserialize_invoke_method_command;
  IsWritable = IsInvokeMethodCommand;
  response = some (record {
    Instance = InvokeMethodResponse;
    serialize = serialize_invoke_method_response;
    deserialize = deserialize_invoke_method_response;
    IsWritable = IsInvokeMethodResponse;
  });
}

abbrev pub interface_type_classes : List CommandClass
interface_type_classes = invoke_method_class ∷ []

pub interface_type_classes-RoundTrips : All RoundTrips interface_type_classes
interface_type_classes-RoundTrips = (
  (λ _ p s c h. RoundTrip-invoke_method_command h, λ p s c h. RoundTrip-invoke_method_response h),
  tt,
)
