-- ===== src/Commands/Registry/ReferenceType.antt =====
-- The classes that src/jdwpy/commands/reference_type.py registers.
use jdwpy.Prelude.{All, List, [], some, ◌∷◌}
use jdwpy.Constants.ErrorCode.{JdwpErrorCode}
use jdwpy.Commands.ReferenceType.Identity.{
  ClassLoaderCommand, ClassLoaderResponse, IsClassLoaderCommand, IsClassLoaderResponse,
  IsModifiersCommand, IsModifiersResponse, IsSignatureCommand, IsSignatureResponse, IsStatusCommand,
  IsStatusResponse, ModifiersCommand, ModifiersResponse, RoundTrip-class_loader_command,
  RoundTrip-class_loader_response, RoundTrip-modifiers_command, RoundTrip-modifiers_response,
  RoundTrip-signature_command, RoundTrip-signature_response, RoundTrip-status_command,
  RoundTrip-status_response, SignatureCommand, SignatureResponse, StatusCommand, StatusResponse,
  deserialize_class_loader_command, deserialize_class_loader_response,
  deserialize_modifiers_command, deserialize_modifiers_response, deserialize_signature_command,
  deserialize_signature_response, deserialize_status_command, deserialize_status_response,
  serialize_class_loader_command, serialize_class_loader_response, serialize_modifiers_command,
  serialize_modifiers_response, serialize_signature_command, serialize_signature_response,
  serialize_status_command, serialize_status_response,
}
use jdwpy.Commands.ReferenceType.Members.{
  FieldsCommand, FieldsResponse, IsFieldsCommand, IsFieldsResponse, IsMethodsCommand,
  IsMethodsResponse, MethodsCommand, MethodsResponse, RoundTrip-fields_command,
  RoundTrip-fields_response, RoundTrip-methods_command, RoundTrip-methods_response,
  deserialize_fields_command, deserialize_fields_response, deserialize_methods_command,
  deserialize_methods_response, serialize_fields_command, serialize_fields_response,
  serialize_methods_command, serialize_methods_response,
}
use jdwpy.Commands.ReferenceType.Values.{
  GetValuesCommand, GetValuesResponse, IsGetValuesCommand, IsGetValuesResponse,
  IsNestedTypesCommand, IsNestedTypesResponse, IsSourceFileCommand, IsSourceFileResponse,
  NestedTypesCommand, NestedTypesResponse, RoundTrip-get_values_command,
  RoundTrip-get_values_response, RoundTrip-nested_types_command, RoundTrip-nested_types_response,
  RoundTrip-source_file_command, RoundTrip-source_file_response, SourceFileCommand,
  SourceFileResponse, deserialize_get_values_command, deserialize_get_values_response,
  deserialize_nested_types_command, deserialize_nested_types_response,
  deserialize_source_file_command, deserialize_source_file_response, serialize_get_values_command,
  serialize_get_values_response, serialize_nested_types_command, serialize_nested_types_response,
  serialize_source_file_command, serialize_source_file_response,
}
use jdwpy.Commands.ReferenceType.Related.{
  ClassObjectCommand, ClassObjectResponse, InterfacesCommand, InterfacesResponse,
  IsClassObjectCommand, IsClassObjectResponse, IsInterfacesCommand, IsInterfacesResponse,
  IsSignatureWithGenericCommand, IsSignatureWithGenericResponse, IsSourceDebugExtensionCommand,
  IsSourceDebugExtensionResponse, RoundTrip-class_object_command, RoundTrip-class_object_response,
  RoundTrip-interfaces_command, RoundTrip-interfaces_response,
  RoundTrip-signature_with_generic_command, RoundTrip-signature_with_generic_response,
  RoundTrip-source_debug_extension_command, RoundTrip-source_debug_extension_response,
  SignatureWithGenericCommand, SignatureWithGenericResponse, SourceDebugExtensionCommand,
  SourceDebugExtensionResponse, deserialize_class_object_command, deserialize_class_object_response,
  deserialize_interfaces_command, deserialize_interfaces_response,
  deserialize_signature_with_generic_command, deserialize_signature_with_generic_response,
  deserialize_source_debug_extension_command, deserialize_source_debug_extension_response,
  serialize_class_object_command, serialize_class_object_response, serialize_interfaces_command,
  serialize_interfaces_response, serialize_signature_with_generic_command,
  serialize_signature_with_generic_response, serialize_source_debug_extension_command,
  serialize_source_debug_extension_response,
}
use jdwpy.Commands.ReferenceType.Generic.{
  FieldsWithGenericCommand, FieldsWithGenericResponse, IsFieldsWithGenericCommand,
  IsFieldsWithGenericResponse, IsMethodsWithGenericCommand, IsMethodsWithGenericResponse,
  MethodsWithGenericCommand, MethodsWithGenericResponse, RoundTrip-fields_with_generic_command,
  RoundTrip-fields_with_generic_response, RoundTrip-methods_with_generic_command,
  RoundTrip-methods_with_generic_response, deserialize_fields_with_generic_command,
  deserialize_fields_with_generic_response, deserialize_methods_with_generic_command,
  deserialize_methods_with_generic_response, serialize_fields_with_generic_command,
  serialize_fields_with_generic_response, serialize_methods_with_generic_command,
  serialize_methods_with_generic_response,
}
use jdwpy.Commands.ReferenceType.ClassFile.{
  ClassFileVersionCommand, ClassFileVersionResponse, ConstantPoolCommand, ConstantPoolResponse,
  InstancesCommand, InstancesResponse, IsClassFileVersionCommand, IsClassFileVersionResponse,
  IsConstantPoolCommand, IsConstantPoolResponse, IsInstancesCommand, IsInstancesResponse,
  RoundTrip-class_file_version_command, RoundTrip-class_file_version_response,
  RoundTrip-constant_pool_command, RoundTrip-constant_pool_response, RoundTrip-instances_command,
  RoundTrip-instances_response, deserialize_class_file_version_command,
  deserialize_class_file_version_response, deserialize_constant_pool_command,
  deserialize_constant_pool_response, deserialize_instances_command, deserialize_instances_response,
  serialize_class_file_version_command, serialize_class_file_version_response,
  serialize_constant_pool_command, serialize_constant_pool_response, serialize_instances_command,
  serialize_instances_response,
}
use jdwpy.Commands.Registry.{CommandClass, RoundTrips}

abbrev pub signature_class : CommandClass
signature_class = record {
  command_set = 2;
  command = 1;
  allowed_errors =
      JdwpErrorCode.none ∷ JdwpErrorCode.invalid_class ∷ JdwpErrorCode.invalid_object
      ∷ JdwpErrorCode.vm_dead ∷ [];
  Instance = SignatureCommand;
  serialize = serialize_signature_command;
  deserialize = deserialize_signature_command;
  IsWritable = IsSignatureCommand;
  response = some (record {
    Instance = SignatureResponse;
    serialize = serialize_signature_response;
    deserialize = deserialize_signature_response;
    IsWritable = IsSignatureResponse;
  });
}

abbrev pub class_loader_class : CommandClass
class_loader_class = record {
  command_set = 2;
  command = 2;
  allowed_errors =
      JdwpErrorCode.none ∷ JdwpErrorCode.invalid_class ∷ JdwpErrorCode.invalid_object
      ∷ JdwpErrorCode.vm_dead ∷ [];
  Instance = ClassLoaderCommand;
  serialize = serialize_class_loader_command;
  deserialize = deserialize_class_loader_command;
  IsWritable = IsClassLoaderCommand;
  response = some (record {
    Instance = ClassLoaderResponse;
    serialize = serialize_class_loader_response;
    deserialize = deserialize_class_loader_response;
    IsWritable = IsClassLoaderResponse;
  });
}

abbrev pub modifiers_class : CommandClass
modifiers_class = record {
  command_set = 2;
  command = 3;
  allowed_errors =
      JdwpErrorCode.none ∷ JdwpErrorCode.invalid_class ∷ JdwpErrorCode.invalid_object
      ∷ JdwpErrorCode.vm_dead ∷ [];
  Instance = ModifiersCommand;
  serialize = serialize_modifiers_command;
  deserialize = deserialize_modifiers_command;
  IsWritable = IsModifiersCommand;
  response = some (record {
    Instance = ModifiersResponse;
    serialize = serialize_modifiers_response;
    deserialize = deserialize_modifiers_response;
    IsWritable = IsModifiersResponse;
  });
}

abbrev pub fields_class : CommandClass
fields_class = record {
  command_set = 2;
  command = 4;
  allowed_errors =
      JdwpErrorCode.none ∷ JdwpErrorCode.class_not_prepared ∷ JdwpErrorCode.invalid_class
      ∷ JdwpErrorCode.invalid_object ∷ JdwpErrorCode.vm_dead ∷ [];
  Instance = FieldsCommand;
  serialize = serialize_fields_command;
  deserialize = deserialize_fields_command;
  IsWritable = IsFieldsCommand;
  response = some (record {
    Instance = FieldsResponse;
    serialize = serialize_fields_response;
    deserialize = deserialize_fields_response;
    IsWritable = IsFieldsResponse;
  });
}

abbrev pub methods_class : CommandClass
methods_class = record {
  command_set = 2;
  command = 5;
  allowed_errors =
      JdwpErrorCode.none ∷ JdwpErrorCode.class_not_prepared ∷ JdwpErrorCode.invalid_class
      ∷ JdwpErrorCode.invalid_object ∷ JdwpErrorCode.vm_dead ∷ [];
  Instance = MethodsCommand;
  serialize = serialize_methods_command;
  deserialize = deserialize_methods_command;
  IsWritable = IsMethodsCommand;
  response = some (record {
    Instance = MethodsResponse;
    serialize = serialize_methods_response;
    deserialize = deserialize_methods_response;
    IsWritable = IsMethodsResponse;
  });
}

abbrev pub get_values_class : CommandClass
get_values_class = record {
  command_set = 2;
  command = 6;
  allowed_errors =
      JdwpErrorCode.none ∷ JdwpErrorCode.invalid_class ∷ JdwpErrorCode.invalid_fieldid
      ∷ JdwpErrorCode.invalid_object ∷ JdwpErrorCode.vm_dead ∷ [];
  Instance = GetValuesCommand;
  serialize = serialize_get_values_command;
  deserialize = deserialize_get_values_command;
  IsWritable = IsGetValuesCommand;
  response = some (record {
    Instance = GetValuesResponse;
    serialize = serialize_get_values_response;
    deserialize = deserialize_get_values_response;
    IsWritable = IsGetValuesResponse;
  });
}

abbrev pub source_file_class : CommandClass
source_file_class = record {
  command_set = 2;
  command = 7;
  allowed_errors =
      JdwpErrorCode.none ∷ JdwpErrorCode.absent_information ∷ JdwpErrorCode.invalid_class
      ∷ JdwpErrorCode.invalid_object ∷ JdwpErrorCode.vm_dead ∷ [];
  Instance = SourceFileCommand;
  serialize = serialize_source_file_command;
  deserialize = deserialize_source_file_command;
  IsWritable = IsSourceFileCommand;
  response = some (record {
    Instance = SourceFileResponse;
    serialize = serialize_source_file_response;
    deserialize = deserialize_source_file_response;
    IsWritable = IsSourceFileResponse;
  });
}

abbrev pub nested_types_class : CommandClass
nested_types_class = record {
  command_set = 2;
  command = 8;
  allowed_errors =
      JdwpErrorCode.none ∷ JdwpErrorCode.invalid_class ∷ JdwpErrorCode.invalid_object
      ∷ JdwpErrorCode.vm_dead ∷ [];
  Instance = NestedTypesCommand;
  serialize = serialize_nested_types_command;
  deserialize = deserialize_nested_types_command;
  IsWritable = IsNestedTypesCommand;
  response = some (record {
    Instance = NestedTypesResponse;
    serialize = serialize_nested_types_response;
    deserialize = deserialize_nested_types_response;
    IsWritable = IsNestedTypesResponse;
  });
}

abbrev pub status_class : CommandClass
status_class = record {
  command_set = 2;
  command = 9;
  allowed_errors =
      JdwpErrorCode.none ∷ JdwpErrorCode.invalid_class ∷ JdwpErrorCode.invalid_object
      ∷ JdwpErrorCode.vm_dead ∷ [];
  Instance = StatusCommand;
  serialize = serialize_status_command;
  deserialize = deserialize_status_command;
  IsWritable = IsStatusCommand;
  response = some (record {
    Instance = StatusResponse;
    serialize = serialize_status_response;
    deserialize = deserialize_status_response;
    IsWritable = IsStatusResponse;
  });
}

abbrev pub interfaces_class : CommandClass
interfaces_class = record {
  command_set = 2;
  command = 10;
  allowed_errors =
      JdwpErrorCode.none ∷ JdwpErrorCode.invalid_class ∷ JdwpErrorCode.invalid_object
      ∷ JdwpErrorCode.vm_dead ∷ [];
  Instance = InterfacesCommand;
  serialize = serialize_interfaces_command;
  deserialize = deserialize_interfaces_command;
  IsWritable = IsInterfacesCommand;
  response = some (record {
    Instance = InterfacesResponse;
    serialize = serialize_interfaces_response;
    deserialize = deserialize_interfaces_response;
    IsWritable = IsInterfacesResponse;
  });
}

abbrev pub class_object_class : CommandClass
class_object_class = record {
  command_set = 2;
  command = 11;
  allowed_errors =
      JdwpErrorCode.none ∷ JdwpErrorCode.invalid_class ∷ JdwpErrorCode.invalid_object
      ∷ JdwpErrorCode.vm_dead ∷ [];
  Instance = ClassObjectCommand;
  serialize = serialize_class_object_command;
  deserialize = deserialize_class_object_command;
  IsWritable = IsClassObjectCommand;
  response = some (record {
    Instance = ClassObjectResponse;
    serialize = serialize_class_object_response;
    deserialize = deserialize_class_object_response;
    IsWritable = IsClassObjectResponse;
  });
}

abbrev pub source_debug_extension_class : CommandClass
source_debug_extension_class = record {
  command_set = 2;
  command = 12;
  allowed_errors =
      JdwpErrorCode.none ∷ JdwpErrorCode.absent_information ∷ JdwpErrorCode.invalid_class
      ∷ JdwpErrorCode.invalid_object ∷ JdwpErrorCode.not_implemented ∷ JdwpErrorCode.vm_dead ∷ [];
  Instance = SourceDebugExtensionCommand;
  serialize = serialize_source_debug_extension_command;
  deserialize = deserialize_source_debug_extension_command;
  IsWritable = IsSourceDebugExtensionCommand;
  response = some (record {
    Instance = SourceDebugExtensionResponse;
    serialize = serialize_source_debug_extension_response;
    deserialize = deserialize_source_debug_extension_response;
    IsWritable = IsSourceDebugExtensionResponse;
  });
}

abbrev pub signature_with_generic_class : CommandClass
signature_with_generic_class = record {
  command_set = 2;
  command = 13;
  allowed_errors =
      JdwpErrorCode.none ∷ JdwpErrorCode.invalid_class ∷ JdwpErrorCode.invalid_object
      ∷ JdwpErrorCode.vm_dead ∷ [];
  Instance = SignatureWithGenericCommand;
  serialize = serialize_signature_with_generic_command;
  deserialize = deserialize_signature_with_generic_command;
  IsWritable = IsSignatureWithGenericCommand;
  response = some (record {
    Instance = SignatureWithGenericResponse;
    serialize = serialize_signature_with_generic_response;
    deserialize = deserialize_signature_with_generic_response;
    IsWritable = IsSignatureWithGenericResponse;
  });
}

abbrev pub fields_with_generic_class : CommandClass
fields_with_generic_class = record {
  command_set = 2;
  command = 14;
  allowed_errors =
      JdwpErrorCode.none ∷ JdwpErrorCode.class_not_prepared ∷ JdwpErrorCode.invalid_class
      ∷ JdwpErrorCode.invalid_object ∷ JdwpErrorCode.vm_dead ∷ [];
  Instance = FieldsWithGenericCommand;
  serialize = serialize_fields_with_generic_command;
  deserialize = deserialize_fields_with_generic_command;
  IsWritable = IsFieldsWithGenericCommand;
  response = some (record {
    Instance = FieldsWithGenericResponse;
    serialize = serialize_fields_with_generic_response;
    deserialize = deserialize_fields_with_generic_response;
    IsWritable = IsFieldsWithGenericResponse;
  });
}

abbrev pub methods_with_generic_class : CommandClass
methods_with_generic_class = record {
  command_set = 2;
  command = 15;
  allowed_errors =
      JdwpErrorCode.none ∷ JdwpErrorCode.class_not_prepared ∷ JdwpErrorCode.invalid_class
      ∷ JdwpErrorCode.invalid_object ∷ JdwpErrorCode.vm_dead ∷ [];
  Instance = MethodsWithGenericCommand;
  serialize = serialize_methods_with_generic_command;
  deserialize = deserialize_methods_with_generic_command;
  IsWritable = IsMethodsWithGenericCommand;
  response = some (record {
    Instance = MethodsWithGenericResponse;
    serialize = serialize_methods_with_generic_response;
    deserialize = deserialize_methods_with_generic_response;
    IsWritable = IsMethodsWithGenericResponse;
  });
}

abbrev pub instances_class : CommandClass
instances_class = record {
  command_set = 2;
  command = 16;
  allowed_errors =
      JdwpErrorCode.none ∷ JdwpErrorCode.illegal_argument ∷ JdwpErrorCode.invalid_class
      ∷ JdwpErrorCode.invalid_object ∷ JdwpErrorCode.not_implemented ∷ JdwpErrorCode.vm_dead ∷ [];
  Instance = InstancesCommand;
  serialize = serialize_instances_command;
  deserialize = deserialize_instances_command;
  IsWritable = IsInstancesCommand;
  response = some (record {
    Instance = InstancesResponse;
    serialize = serialize_instances_response;
    deserialize = deserialize_instances_response;
    IsWritable = IsInstancesResponse;
  });
}

abbrev pub class_file_version_class : CommandClass
class_file_version_class = record {
  command_set = 2;
  command = 17;
  allowed_errors =
      JdwpErrorCode.none ∷ JdwpErrorCode.absent_information ∷ JdwpErrorCode.invalid_class
      ∷ JdwpErrorCode.invalid_object ∷ JdwpErrorCode.vm_dead ∷ [];
  Instance = ClassFileVersionCommand;
  serialize = serialize_class_file_version_command;
  deserialize = deserialize_class_file_version_command;
  IsWritable = IsClassFileVersionCommand;
  response = some (record {
    Instance = ClassFileVersionResponse;
    serialize = serialize_class_file_version_response;
    deserialize = deserialize_class_file_version_response;
    IsWritable = IsClassFileVersionResponse;
  });
}

abbrev pub constant_pool_class : CommandClass
constant_pool_class = record {
  command_set = 2;
  command = 18;
  allowed_errors =
      JdwpErrorCode.none ∷ JdwpErrorCode.absent_information ∷ JdwpErrorCode.invalid_class
      ∷ JdwpErrorCode.invalid_object ∷ JdwpErrorCode.not_implemented ∷ JdwpErrorCode.vm_dead ∷ [];
  Instance = ConstantPoolCommand;
  serialize = serialize_constant_pool_command;
  deserialize = deserialize_constant_pool_command;
  IsWritable = IsConstantPoolCommand;
  response = some (record {
    Instance = ConstantPoolResponse;
    serialize = serialize_constant_pool_response;
    deserialize = deserialize_constant_pool_response;
    IsWritable = IsConstantPoolResponse;
  });
}

abbrev pub reference_type_classes : List CommandClass
reference_type_classes =
    signature_class ∷ class_loader_class ∷ modifiers_class ∷ fields_class ∷ methods_class
    ∷ get_values_class ∷ source_file_class ∷ nested_types_class ∷ status_class ∷ interfaces_class
    ∷ class_object_class ∷ source_debug_extension_class ∷ signature_with_generic_class
    ∷ fields_with_generic_class ∷ methods_with_generic_class ∷ instances_class
    ∷ class_file_version_class ∷ constant_pool_class ∷ []

pub reference_type_classes-RoundTrips : All RoundTrips reference_type_classes
reference_type_classes-RoundTrips = (
  (λ _ p s c h. RoundTrip-signature_command h, λ p s c h. RoundTrip-signature_response h),
  (
    (λ _ p s c h. RoundTrip-class_loader_command h, λ p s c h. RoundTrip-class_loader_response h),
    (
      (λ _ p s c h. RoundTrip-modifiers_command h, λ p s c h. RoundTrip-modifiers_response h),
      (
        (λ _ p s c h. RoundTrip-fields_command h, λ p s c h. RoundTrip-fields_response h),
        (
          (λ _ p s c h. RoundTrip-methods_command h, λ p s c h. RoundTrip-methods_response h),
          (
            (
              λ _ p s c h. RoundTrip-get_values_command h,
              λ p s c h. RoundTrip-get_values_response h,
            ),
            (
              (
                λ _ p s c h. RoundTrip-source_file_command h,
                λ p s c h. RoundTrip-source_file_response h,
              ),
              (
                (
                  λ _ p s c h. RoundTrip-nested_types_command h,
                  λ p s c h. RoundTrip-nested_types_response h,
                ),
                (
                  (λ _ p s c h. RoundTrip-status_command h, λ p s c h. RoundTrip-status_response h),
                  (
                    (
                      λ _ p s c h. RoundTrip-interfaces_command h,
                      λ p s c h. RoundTrip-interfaces_response h,
                    ),
                    (
                      (
                        λ _ p s c h. RoundTrip-class_object_command h,
                        λ p s c h. RoundTrip-class_object_response h,
                      ),
                      (
                        (
                          λ _ p s c h. RoundTrip-source_debug_extension_command h,
                          λ p s c h. RoundTrip-source_debug_extension_response h,
                        ),
                        (
                          (
                            λ _ p s c h. RoundTrip-signature_with_generic_command h,
                            λ p s c h. RoundTrip-signature_with_generic_response h,
                          ),
                          (
                            (
                              λ _ p s c h. RoundTrip-fields_with_generic_command h,
                              λ p s c h. RoundTrip-fields_with_generic_response h,
                            ),
                            (
                              (
                                λ _ p s c h. RoundTrip-methods_with_generic_command h,
                                λ p s c h. RoundTrip-methods_with_generic_response h,
                              ),
                              (
                                (
                                  λ _ p s c h. RoundTrip-instances_command h,
                                  λ p s c h. RoundTrip-instances_response h,
                                ),
                                (
                                  (
                                    λ _ p s c h. RoundTrip-class_file_version_command h,
                                    λ p s c h. RoundTrip-class_file_version_response h,
                                  ),
                                  (
                                    (
                                      λ _ p s c h. RoundTrip-constant_pool_command h,
                                      λ p s c h. RoundTrip-constant_pool_response h,
                                    ),
                                    tt,
                                  ),
                                ),
                              ),
                            ),
                          ),
                        ),
                      ),
                    ),
                  ),
                ),
              ),
            ),
          ),
        ),
      ),
    ),
  ),
)
