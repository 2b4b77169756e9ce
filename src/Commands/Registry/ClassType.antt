-- ===== src/Commands/Registry/ClassType.antt =====
-- The classes that src/jdwpy/commands/class_type.py registers.
use jdwpy.Prelude.{All, List, [], some, ◌∷◌}
use jdwpy.Constants.ErrorCode.{JdwpErrorCode}
use jdwpy.Commands.ClassType.Values.{
  IsSetValuesCommand, IsSuperclassCommand, IsSuperclassResponse, RoundTrip-set_values_command,
  RoundTrip-set_values_response, RoundTrip-superclass_command, RoundTrip-superclass_response,
  SetValuesCommand, SetValuesResponse, SuperclassCommand, SuperclassResponse,
  deserialize_set_values_command, deserialize_set_values_response, deserialize_superclass_command,
  deserialize_superclass_response, serialize_set_values_command, serialize_set_values_response,
  serialize_superclass_command, serialize_superclass_response,
}
use jdwpy.Commands.ClassType.Invoke.{
  InvokeMethodCommand, InvokeMethodResponse, IsInvokeMethodCommand, IsInvokeMethodResponse,
  IsNewInstanceCommand, IsNewInstanceResponse, NewInstanceCommand, NewInstanceResponse,
  RoundTrip-invoke_method_command, RoundTrip-invoke_method_response, RoundTrip-new_instance_command,
  RoundTrip-new_instance_response, deserialize_invoke_method_command,
  deserialize_invoke_method_response, deserialize_new_instance_command,
  deserialize_new_instance_response, serialize_invoke_method_command,
  serialize_invoke_method_response, serialize_new_instance_command, serialize_new_instance_response,
}
use jdwpy.Commands.Registry.{CommandClass, RoundTrips}

abbrev pub superclass_class : CommandClass
superclass_class = record {
  command_set = 3;
  command = 1;
  allowed_errors =
      JdwpErrorCode.none ∷ JdwpErrorCode.invalid_class ∷ JdwpErrorCode.invalid_object
      ∷ JdwpErrorCode.vm_dead ∷ [];
  Instance = SuperclassCommand;
  serialize = serialize_superclass_command;
  deserialize = deserialize_superclass_command;
  IsWritable = IsSuperclassCommand;
  response = some (record {
    Instance = SuperclassResponse;
    serialize = serialize_superclass_response;
    deserialize = deserialize_superclass_response;
    IsWritable = IsSuperclassResponse;
  });
}

abbrev pub set_values_class : CommandClass
set_values_class = record {
  command_set = 3;
  command = 2;
  allowed_errors =
      JdwpErrorCode.none ∷ JdwpErrorCode.class_not_prepared ∷ JdwpErrorCode.invalid_class
      ∷ JdwpErrorCode.invalid_fieldid ∷ JdwpErrorCode.invalid_object ∷ JdwpErrorCode.vm_dead ∷ [];
  Instance = SetValuesCommand;
  serialize = serialize_set_values_command;
  deserialize = deserialize_set_values_command;
  IsWritable = IsSetValuesCommand;
  response = some (record {
    Instance = SetValuesResponse;
    serialize = serialize_set_values_response;
    deserialize = deserialize_set_values_response;
    IsWritable = λ p s c. Unit {0};
  });
}

abbrev pub invoke_method_class : CommandClass
invoke_method_class = record {
  command_set = 3;
  command = 3;
  allowed_errors =
      JdwpErrorCode.none ∷ JdwpErrorCode.invalid_class ∷ JdwpErrorCode.invalid_methodid
      ∷ JdwpErrorCode.invalid_object ∷ JdwpErrorCode.invalid_thread
      ∷ JdwpErrorCode.thread_not_suspended ∷ JdwpErrorCode.vm_dead ∷ [];
  Instance = InvokeMethodCommand;
  serialize = serialize_invoke_method_command;
  deserialize = deserialize_invoke_method_command;
  IsWritable = IsInvokeMethodCommand;
  response = some (record {
    Instance = InvokeMethodResponse;
    serialize = serialize_invoke_method_response;
    deserialize = deserialize_invoke_method_response;
    IsWritable = IsInvokeMethodResponse;
  });
}

abbrev pub new_instance_class : CommandClass
new_instance_class = record {
  command_set = 3;
  command = 4;
  allowed_errors =
      JdwpErrorCode.none ∷ JdwpErrorCode.invalid_class ∷ JdwpErrorCode.invalid_methodid
      ∷ JdwpErrorCode.invalid_object ∷ JdwpErrorCode.invalid_thread
      ∷ JdwpErrorCode.thread_not_suspended ∷ JdwpErrorCode.vm_dead ∷ [];
  Instance = NewInstanceCommand;
  serialize = serialize_new_instance_command;
  deserialize = deserialize_new_instance_command;
  IsWritable = IsNewInstanceCommand;
  response = some (record {
    Instance = NewInstanceResponse;
    serialize = serialize_new_instance_response;
    deserialize = deserialize_new_instance_response;
    IsWritable = IsNewInstanceResponse;
  });
}

abbrev pub class_type_classes : List CommandClass
class_type_classes =
    superclass_class ∷ set_values_class ∷ invoke_method_class ∷ new_instance_class ∷ []

pub class_type_classes-RoundTrips : All RoundTrips class_type_classes
class_type_classes-RoundTrips = (
  (λ _ p s c h. RoundTrip-superclass_command h, λ p s c h. RoundTrip-superclass_response h),
  (
    (λ _ p s c h. RoundTrip-set_values_command h, λ p s c h. RoundTrip-set_values_response c),
    (
      (
        λ _ p s c h. RoundTrip-invoke_method_command h,
        λ p s c h. RoundTrip-invoke_method_response h,
      ),
      (
        (
          λ _ p s c h. RoundTrip-new_instance_command h,
          λ p s c h. RoundTrip-new_instance_response h,
        ),
        tt,
      ),
    ),
  ),
)
