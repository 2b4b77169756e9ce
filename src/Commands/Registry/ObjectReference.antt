-- ===== src/Commands/Registry/ObjectReference.antt =====
-- The classes that src/jdwpy/commands/object_reference.py registers.
use jdwpy.Prelude.{All, List, [], some, ◌∷◌}
use jdwpy.Constants.ErrorCode.{JdwpErrorCode}
use jdwpy.Commands.ObjectReference.Values.{
  GetValuesCommand, GetValuesResponse, IsGetValuesCommand, IsGetValuesResponse,
  IsReferenceTypeCommand, IsReferenceTypeResponse, IsSetValuesCommand, ReferenceTypeCommand,
  ReferenceTypeResponse, RoundTrip-get_values_command, RoundTrip-get_values_response,
  RoundTrip-reference_type_command, RoundTrip-reference_type_response, RoundTrip-set_values_command,
  RoundTrip-set_values_response, SetValuesCommand, SetValuesResponse,
  deserialize_get_values_command, deserialize_get_values_response,
  deserialize_reference_type_command, deserialize_reference_type_response,
  deserialize_set_values_command, deserialize_set_values_response, serialize_get_values_command,
  serialize_get_values_response, serialize_reference_type_command,
  serialize_reference_type_response, serialize_set_values_command, serialize_set_values_response,
}
use jdwpy.Commands.ObjectReference.Invoke.{
  InvokeMethodCommand, InvokeMethodResponse, IsInvokeMethodCommand, IsInvokeMethodResponse,
  IsMonitorInfoCommand, IsMonitorInfoResponse, IsReferringObjectsCommand,
  IsReferringObjectsResponse, MonitorInfoCommand, MonitorInfoResponse, ReferringObjectsCommand,
  ReferringObjectsResponse, RoundTrip-invoke_method_command, RoundTrip-invoke_method_response,
  RoundTrip-monitor_info_command, RoundTrip-monitor_info_response,
  RoundTrip-referring_objects_command, RoundTrip-referring_objects_response,
  deserialize_invoke_method_command, deserialize_invoke_method_response,
  deserialize_monitor_info_command, deserialize_monitor_info_response,
  deserialize_referring_objects_command, deserialize_referring_objects_response,
  serialize_invoke_method_command, serialize_invoke_method_response, serialize_monitor_info_command,
  serialize_monitor_info_response, serialize_referring_objects_command,
  serialize_referring_objects_response,
}
use jdwpy.Commands.ObjectReference.Collection.{
  DisableCollectionCommand, DisableCollectionResponse, EnableCollectionCommand,
  EnableCollectionResponse, IsCollectedCommand, IsCollectedResponse, IsDisableCollectionCommand,
  IsEnableCollectionCommand, IsIsCollectedCommand, RoundTrip-disable_collection_command,
  RoundTrip-disable_collection_response, RoundTrip-enable_collection_command,
  RoundTrip-enable_collection_response, RoundTrip-is_collected_command,
  RoundTrip-is_collected_response, deserialize_disable_collection_command,
  deserialize_disable_collection_response, deserialize_enable_collection_command,
  deserialize_enable_collection_response, deserialize_is_collected_command,
  deserialize_is_collected_response, serialize_disable_collection_command,
  serialize_disable_collection_response, serialize_enable_collection_command,
  serialize_enable_collection_response, serialize_is_collected_command,
  serialize_is_collected_response,
}
use jdwpy.Commands.Registry.{CommandClass, RoundTrips}

abbrev pub reference_type_class : CommandClass
reference_type_class = record {
  command_set = 9;
  command = 1;
  allowed_errors = JdwpErrorCode.none ∷ JdwpErrorCode.invalid_object ∷ JdwpErrorCode.vm_dead ∷ [];
  Instance = ReferenceTypeCommand;
  serialize = serialize_reference_type_command;
  deserialize = deserialize_reference_type_command;
  IsWritable = IsReferenceTypeCommand;
  response = some (record {
    Instance = ReferenceTypeResponse;
    serialize = serialize_reference_type_response;
    deserialize = deserialize_reference_type_response;
    IsWritable = IsReferenceTypeResponse;
  });
}

abbrev pub get_values_class : CommandClass
get_values_class = record {
  command_set = 9;
  command = 2;
  allowed_errors =
      JdwpErrorCode.none ∷ JdwpErrorCode.invalid_fieldid ∷ JdwpErrorCode.invalid_object
      ∷ JdwpErrorCode.vm_dead ∷ [];
  Instance = GetValuesCommand;
  serialize = serialize_get_values_command;
  deserialize = deserialize_get_values_command;
  IsWritable = IsGetValuesCommand;
  response = some (record {
    Instance = GetValuesResponse;
    serialize = serialize_get_values_response;
    deserialize = deserialize_get_values_response;
    IsWritable = IsGetValuesResponse;
  });
}

abbrev pub set_values_class : CommandClass
set_values_class = record {
  command_set = 9;
  command = 3;
  allowed_errors =
      JdwpErrorCode.none ∷ JdwpErrorCode.invalid_fieldid ∷ JdwpErrorCode.invalid_object
      ∷ JdwpErrorCode.vm_dead ∷ [];
  Instance = SetValuesCommand;
  serialize = serialize_set_values_command;
  deserialize = deserialize_set_values_command;
  IsWritable = IsSetValuesCommand;
  response = some (record {
    Instance = SetValuesResponse;
    serialize = serialize_set_values_response;
    deserialize = deserialize_set_values_response;
    IsWritable = λ p s c. Unit {0};
  });
}

abbrev pub monitor_info_class : CommandClass
monitor_info_class = record {
  command_set = 9;
  command = 5;
  allowed_errors =
      JdwpErrorCode.none ∷ JdwpErrorCode.invalid_object ∷ JdwpErrorCode.not_implemented
      ∷ JdwpErrorCode.vm_dead ∷ [];
  Instance = MonitorInfoCommand;
  serialize = serialize_monitor_info_command;
  deserialize = deserialize_monitor_info_command;
  IsWritable = IsMonitorInfoCommand;
  response = some (record {
    Instance = MonitorInfoResponse;
    serialize = serialize_monitor_info_response;
    deserialize = deserialize_monitor_info_response;
    IsWritable = IsMonitorInfoResponse;
  });
}

abbrev pub invoke_method_class : CommandClass
invoke_method_class = record {
  command_set = 9;
  command = 6;
  allowed_errors =
      JdwpErrorCode.none ∷ JdwpErrorCode.invalid_class ∷ JdwpErrorCode.invalid_methodid
      ∷ JdwpErrorCode.invalid_object ∷ JdwpErrorCode.invalid_thread
      ∷ JdwpErrorCode.thread_not_suspended ∷ JdwpErrorCode.vm_dead ∷ [];
  Instance = InvokeMethodCommand;
  serialize = serialize_invoke_method_command;
  deserialize = deserialize_invoke_method_command;
  IsWritable = IsInvokeMethodCommand;
  response = some (record {
    Instance = InvokeMethodResponse;
    serialize = serialize_invoke_method_response;
    deserialize = deserialize_invoke_method_response;
    IsWritable = IsInvokeMethodResponse;
  });
}

abbrev pub disable_collection_class : CommandClass
disable_collection_class = record {
  command_set = 9;
  command = 7;
  allowed_errors = JdwpErrorCode.none ∷ JdwpErrorCode.invalid_object ∷ JdwpErrorCode.vm_dead ∷ [];
  Instance = DisableCollectionCommand;
  serialize = serialize_disable_collection_command;
  deserialize = deserialize_disable_collection_command;
  IsWritable = IsDisableCollectionCommand;
  response = some (record {
    Instance = DisableCollectionResponse;
    serialize = serialize_disable_collection_response;
    deserialize = deserialize_disable_collection_response;
    IsWritable = λ p s c. Unit {0};
  });
}

abbrev pub enable_collection_class : CommandClass
enable_collection_class = record {
  command_set = 9;
  command = 8;
  allowed_errors = JdwpErrorCode.none ∷ JdwpErrorCode.vm_dead ∷ [];
  Instance = EnableCollectionCommand;
  serialize = serialize_enable_collection_command;
  deserialize = deserialize_enable_collection_command;
  IsWritable = IsEnableCollectionCommand;
  response = some (record {
    Instance = EnableCollectionResponse;
    serialize = serialize_enable_collection_response;
    deserialize = deserialize_enable_collection_response;
    IsWritable = λ p s c. Unit {0};
  });
}

abbrev pub is_collected_class : CommandClass
is_collected_class = record {
  command_set = 9;
  command = 9;
  allowed_errors = JdwpErrorCode.none ∷ JdwpErrorCode.invalid_object ∷ JdwpErrorCode.vm_dead ∷ [];
  Instance = IsCollectedCommand;
  serialize = serialize_is_collected_command;
  deserialize = deserialize_is_collected_command;
  IsWritable = IsIsCollectedCommand;
  response = some (record {
    Instance = IsCollectedResponse;
    serialize = serialize_is_collected_response;
    deserialize = deserialize_is_collected_response;
    IsWritable = λ p s c. Unit {0};
  });
}

abbrev pub referring_objects_class : CommandClass
referring_objects_class = record {
  command_set = 9;
  command = 10;
  allowed_errors =
      JdwpErrorCode.none ∷ JdwpErrorCode.illegal_argument ∷ JdwpErrorCode.invalid_object
      ∷ JdwpErrorCode.not_implemented ∷ JdwpErrorCode.vm_dead ∷ [];
  Instance = ReferringObjectsCommand;
  serialize = serialize_referring_objects_command;
  deserialize = deserialize_referring_objects_command;
  IsWritable = IsReferringObjectsCommand;
  response = some (record {
    Instance = ReferringObjectsResponse;
    serialize = serialize_referring_objects_response;
    deserialize = deserialize_referring_objects_response;
    IsWritable = IsReferringObjectsResponse;
  });
}

abbrev pub object_reference_classes : List CommandClass
object_reference_classes =
    reference_type_class ∷ get_values_class ∷ set_values_class ∷ monitor_info_class
    ∷ invoke_method_class ∷ disable_collection_class ∷ enable_collection_class ∷ is_collected_class
    ∷ referring_objects_class ∷ []

pub object_reference_classes-RoundTrips : All RoundTrips object_reference_classes
object_reference_classes-RoundTrips = (
  (λ _ p s c h. RoundTrip-reference_type_command h, λ p s c h. RoundTrip-reference_type_response h),
  (
    (λ _ p s c h. RoundTrip-get_values_command h, λ p s c h. RoundTrip-get_values_response h),
    (
      (λ _ p s c h. RoundTrip-set_values_command h, λ p s c h. RoundTrip-set_values_response c),
      (
        (
          λ _ p s c h. RoundTrip-monitor_info_command h,
          λ p s c h. RoundTrip-monitor_info_response h,
        ),
        (
          (
            λ _ p s c h. RoundTrip-invoke_method_command h,
            λ p s c h. RoundTrip-invoke_method_response h,
          ),
          (
            (
              λ _ p s c h. RoundTrip-disable_collection_command h,
              λ p s c h. RoundTrip-disable_collection_response c,
            ),
            (
              (
                λ _ p s c h. RoundTrip-enable_collection_command h,
                λ p s c h. RoundTrip-enable_collection_response c,
              ),
              (
                (
                  λ _ p s c h. RoundTrip-is_collected_command h,
                  λ p s c h. RoundTrip-is_collected_response,
                ),
                (
                  (
                    λ _ p s c h. RoundTrip-referring_objects_command h,
                    λ p s c h. RoundTrip-referring_objects_response h,
                  ),
                  tt,
                ),
              ),
            ),
          ),
        ),
      ),
    ),
  ),
)
