-- ===== src/Commands/Registry/Vm.antt =====
-- The classes that src/jdwpy/commands/vm.py registers.
use jdwpy.Prelude.{All, List, [], some, ◌∷◌}
use jdwpy.Constants.ErrorCode.{JdwpErrorCode}
use jdwpy.Commands.Vm.Info.{
  ClassPathsCommand, ClassPathsResponse, IdSizesCommand, IdSizesResponse, IsClassPathsResponse,
  IsIdSizesResponse, IsVersionResponse, RoundTrip-class_paths_command,
  RoundTrip-class_paths_response, RoundTrip-id_sizes_command, RoundTrip-id_sizes_response,
  RoundTrip-version_command, RoundTrip-version_response, VersionCommand, VersionResponse,
  deserialize_class_paths_command, deserialize_class_paths_response, deserialize_id_sizes_command,
  deserialize_id_sizes_response, deserialize_version_command, deserialize_version_response,
  serialize_class_paths_command, serialize_class_paths_response, serialize_id_sizes_command,
  serialize_id_sizes_response, serialize_version_command, serialize_version_response,
}
use jdwpy.Commands.Vm.Classes.{
  AllClassesCommand, AllClassesResponse, ClassesBySignatureCommand, ClassesBySignatureResponse,
  IsAllClassesResponse, IsClassesBySignatureCommand, IsClassesBySignatureResponse,
  RoundTrip-all_classes_command, RoundTrip-all_classes_response,
  RoundTrip-classes_by_signature_command, RoundTrip-classes_by_signature_response,
  deserialize_all_classes_command, deserialize_all_classes_response,
  deserialize_classes_by_signature_command, deserialize_classes_by_signature_response,
  serialize_all_classes_command, serialize_all_classes_response,
  serialize_classes_by_signature_command, serialize_classes_by_signature_response,
}
use jdwpy.Commands.Vm.Threads.{
  AllThreadsCommand, AllThreadsResponse, IsAllThreadsResponse, IsTopLevelThreadGroupsResponse,
  ResumeCommand, ResumeResponse, RoundTrip-all_threads_command, RoundTrip-all_threads_response,
  RoundTrip-resume_command, RoundTrip-resume_response, RoundTrip-suspend_command,
  RoundTrip-suspend_response, RoundTrip-top_level_thread_groups_command,
  RoundTrip-top_level_thread_groups_response, SuspendCommand, SuspendResponse,
  TopLevelThreadGroupsCommand, TopLevelThreadGroupsResponse, deserialize_all_threads_command,
  deserialize_all_threads_response, deserialize_resume_command, deserialize_resume_response,
  deserialize_suspend_command, deserialize_suspend_response,
  deserialize_top_level_thread_groups_command, deserialize_top_level_thread_groups_response,
  serialize_all_threads_command, serialize_all_threads_response, serialize_resume_command,
  serialize_resume_response, serialize_suspend_command, serialize_suspend_response,
  serialize_top_level_thread_groups_command, serialize_top_level_thread_groups_response,
}
use jdwpy.Commands.Vm.Lifecycle.{
  DisposeCommand, DisposeResponse, ExitCommand, ExitResponse, HoldEventsCommand, HoldEventsResponse,
  IsExitCommand, ReleaseEventsCommand, ReleaseEventsResponse, RoundTrip-dispose_command,
  RoundTrip-dispose_response, RoundTrip-exit_command, RoundTrip-exit_response,
  RoundTrip-hold_events_command, RoundTrip-hold_events_response, RoundTrip-release_events_command,
  RoundTrip-release_events_response, deserialize_dispose_command, deserialize_dispose_response,
  deserialize_exit_command, deserialize_exit_response, deserialize_hold_events_command,
  deserialize_hold_events_response, deserialize_release_events_command,
  deserialize_release_events_response, serialize_dispose_command, serialize_dispose_response,
  serialize_exit_command, serialize_exit_response, serialize_hold_events_command,
  serialize_hold_events_response, serialize_release_events_command,
  serialize_release_events_response,
}
use jdwpy.Commands.Vm.Objects.{
  CreateStringCommand, CreateStringResponse, DisposeObjectsCommand, DisposeObjectsResponse,
  IsCreateStringCommand, IsCreateStringResponse, IsDisposeObjectsCommand, IsRedefineClassesCommand,
  RedefineClassesCommand, RedefineClassesResponse, RoundTrip-create_string_command,
  RoundTrip-create_string_response, RoundTrip-dispose_objects_command,
  RoundTrip-dispose_objects_response, RoundTrip-redefine_classes_command,
  RoundTrip-redefine_classes_response, deserialize_create_string_command,
  deserialize_create_string_response, deserialize_dispose_objects_command,
  deserialize_dispose_objects_response, deserialize_redefine_classes_command,
  deserialize_redefine_classes_response, serialize_create_string_command,
  serialize_create_string_response, serialize_dispose_objects_command,
  serialize_dispose_objects_response, serialize_redefine_classes_command,
  serialize_redefine_classes_response,
}
use jdwpy.Commands.Vm.Capabilities.{
  CapabilitiesCommand, CapabilitiesResponse, RoundTrip-capabilities_command,
  RoundTrip-capabilities_response, deserialize_capabilities_command,
  deserialize_capabilities_response, serialize_capabilities_command,
  serialize_capabilities_response,
}
use jdwpy.Commands.Vm.CapabilitiesNew.{
  CapabilitiesNewCommand, CapabilitiesNewResponse, RoundTrip-capabilities_new_command,
  RoundTrip-capabilities_new_response, deserialize_capabilities_new_command,
  deserialize_capabilities_new_response, serialize_capabilities_new_command,
  serialize_capabilities_new_response,
}
use jdwpy.Commands.Vm.Generic.{
  AllClassesWithGenericCommand, AllClassesWithGenericResponse, InstanceCountsCommand,
  InstanceCountsResponse, IsAllClassesWithGenericResponse, IsInstanceCountsCommand,
  IsInstanceCountsResponse, IsSetDefaultStratumCommand, RoundTrip-all_classes_with_generic_command,
  RoundTrip-all_classes_with_generic_response, RoundTrip-instance_counts_command,
  RoundTrip-instance_counts_response, RoundTrip-set_default_stratum_command,
  RoundTrip-set_default_stratum_response, SetDefaultStratumCommand, SetDefaultStratumResponse,
  deserialize_all_classes_with_generic_command, deserialize_all_classes_with_generic_response,
  deserialize_instance_counts_command, deserialize_instance_counts_response,
  deserialize_set_default_stratum_command, deserialize_set_default_stratum_response,
  serialize_all_classes_with_generic_command, serialize_all_classes_with_generic_response,
  serialize_instance_counts_command, serialize_instance_counts_response,
  serialize_set_default_stratum_command, serialize_set_default_stratum_response,
}
use jdwpy.Commands.Registry.{CommandClass, RoundTrips}

abbrev pub version_class : CommandClass
version_class = record {
  command_set = 1;
  command = 1;
  allowed_errors = JdwpErrorCode.none ∷ JdwpErrorCode.vm_dead ∷ [];
  Instance = VersionCommand;
  serialize = serialize_version_command;
  deserialize = deserialize_version_command;
  IsWritable = λ p s c. Unit {0};
  response = some (record {
    Instance = VersionResponse;
    serialize = serialize_version_response;
    deserialize = deserialize_version_response;
    IsWritable = IsVersionResponse;
  });
}

abbrev pub classes_by_signature_class : CommandClass
classes_by_signature_class = record {
  command_set = 1;
  command = 2;
  allowed_errors = JdwpErrorCode.none ∷ JdwpErrorCode.vm_dead ∷ [];
  Instance = ClassesBySignatureCommand;
  serialize = serialize_classes_by_signature_command;
  deserialize = deserialize_classes_by_signature_command;
  IsWritable = IsClassesBySignatureCommand;
  response = some (record {
    Instance = ClassesBySignatureResponse;
    serialize = serialize_classes_by_signature_response;
    deserialize = deserialize_classes_by_signature_response;
    IsWritable = IsClassesBySignatureResponse;
  });
}

abbrev pub all_classes_class : CommandClass
all_classes_class = record {
  command_set = 1;
  command = 3;
  allowed_errors = JdwpErrorCode.none ∷ JdwpErrorCode.vm_dead ∷ [];
  Instance = AllClassesCommand;
  serialize = serialize_all_classes_command;
  deserialize = deserialize_all_classes_command;
  IsWritable = λ p s c. Unit {0};
  response = some (record {
    Instance = AllClassesResponse;
    serialize = serialize_all_classes_response;
    deserialize = deserialize_all_classes_response;
    IsWritable = IsAllClassesResponse;
  });
}

abbrev pub all_threads_class : CommandClass
all_threads_class = record {
  command_set = 1;
  command = 4;
  allowed_errors = JdwpErrorCode.none ∷ JdwpErrorCode.vm_dead ∷ [];
  Instance = AllThreadsCommand;
  serialize = serialize_all_threads_command;
  deserialize = deserialize_all_threads_command;
  IsWritable = λ p s c. Unit {0};
  response = some (record {
    Instance = AllThreadsResponse;
    serialize = serialize_all_threads_response;
    deserialize = deserialize_all_threads_response;
    IsWritable = IsAllThreadsResponse;
  });
}

abbrev pub top_level_thread_groups_class : CommandClass
top_level_thread_groups_class = record {
  command_set = 1;
  command = 5;
  allowed_errors = JdwpErrorCode.none ∷ JdwpErrorCode.vm_dead ∷ [];
  Instance = TopLevelThreadGroupsCommand;
  serialize = serialize_top_level_thread_groups_command;
  deserialize = deserialize_top_level_thread_groups_command;
  IsWritable = λ p s c. Unit {0};
  response = some (record {
    Instance = TopLevelThreadGroupsResponse;
    serialize = serialize_top_level_thread_groups_response;
    deserialize = deserialize_top_level_thread_groups_response;
    IsWritable = IsTopLevelThreadGroupsResponse;
  });
}

abbrev pub dispose_class : CommandClass
dispose_class = record {
  command_set = 1;
  command = 6;
  allowed_errors = JdwpErrorCode.none ∷ [];
  Instance = DisposeCommand;
  serialize = serialize_dispose_command;
  deserialize = deserialize_dispose_command;
  IsWritable = λ p s c. Unit {0};
  response = some (record {
    Instance = DisposeResponse;
    serialize = serialize_dispose_response;
    deserialize = deserialize_dispose_response;
    IsWritable = λ p s c. Unit {0};
  });
}

abbrev pub id_sizes_class : CommandClass
id_sizes_class = record {
  command_set = 1;
  command = 7;
  allowed_errors = JdwpErrorCode.none ∷ JdwpErrorCode.vm_dead ∷ [];
  Instance = IdSizesCommand;
  serialize = serialize_id_sizes_command;
  deserialize = deserialize_id_sizes_command;
  IsWritable = λ p s c. Unit {0};
  response = some (record {
    Instance = IdSizesResponse;
    serialize = serialize_id_sizes_response;
    deserialize = deserialize_id_sizes_response;
    IsWritable = IsIdSizesResponse;
  });
}

abbrev pub suspend_class : CommandClass
suspend_class = record {
  command_set = 1;
  command = 8;
  allowed_errors = JdwpErrorCode.none ∷ JdwpErrorCode.vm_dead ∷ [];
  Instance = SuspendCommand;
  serialize = serialize_suspend_command;
  deserialize = deserialize_suspend_command;
  IsWritable = λ p s c. Unit {0};
  response = some (record {
    Instance = SuspendResponse;
    serialize = serialize_suspend_response;
    deserialize = deserialize_suspend_response;
    IsWritable = λ p s c. Unit {0};
  });
}

abbrev pub resume_class : CommandClass
resume_class = record {
  command_set = 1;
  command = 9;
  allowed_errors = JdwpErrorCode.none ∷ [];
  Instance = ResumeCommand;
  serialize = serialize_resume_command;
  deserialize = deserialize_resume_command;
  IsWritable = λ p s c. Unit {0};
  response = some (record {
    Instance = ResumeResponse;
    serialize = serialize_resume_response;
    deserialize = deserialize_resume_response;
    IsWritable = λ p s c. Unit {0};
  });
}

abbrev pub exit_class : CommandClass
exit_class = record {
  command_set = 1;
  command = 10;
  allowed_errors = JdwpErrorCode.none ∷ [];
  Instance = ExitCommand;
  serialize = serialize_exit_command;
  deserialize = deserialize_exit_command;
  IsWritable = IsExitCommand;
  response = some (record {
    Instance = ExitResponse;
    serialize = serialize_exit_response;
    deserialize = deserialize_exit_response;
    IsWritable = λ p s c. Unit {0};
  });
}

abbrev pub create_string_class : CommandClass
create_string_class = record {
  command_set = 1;
  command = 11;
  allowed_errors = JdwpErrorCode.none ∷ JdwpErrorCode.vm_dead ∷ [];
  Instance = CreateStringCommand;
  serialize = serialize_create_string_command;
  deserialize = deserialize_create_string_command;
  IsWritable = IsCreateStringCommand;
  response = some (record {
    Instance = CreateStringResponse;
    serialize = serialize_create_string_response;
    deserialize = deserialize_create_string_response;
    IsWritable = IsCreateStringResponse;
  });
}

abbrev pub capabilities_class : CommandClass
capabilities_class = record {
  command_set = 1;
  command = 12;
  allowed_errors = JdwpErrorCode.none ∷ JdwpErrorCode.vm_dead ∷ [];
  Instance = CapabilitiesCommand;
  serialize = serialize_capabilities_command;
  deserialize = deserialize_capabilities_command;
  IsWritable = λ p s c. Unit {0};
  response = some (record {
    Instance = CapabilitiesResponse;
    serialize = serialize_capabilities_response;
    deserialize = deserialize_capabilities_response;
    IsWritable = λ p s c. Unit {0};
  });
}

abbrev pub class_paths_class : CommandClass
class_paths_class = record {
  command_set = 1;
  command = 13;
  allowed_errors = JdwpErrorCode.none ∷ JdwpErrorCode.vm_dead ∷ [];
  Instance = ClassPathsCommand;
  serialize = serialize_class_paths_command;
  deserialize = deserialize_class_paths_command;
  IsWritable = λ p s c. Unit {0};
  response = some (record {
    Instance = ClassPathsResponse;
    serialize = serialize_class_paths_response;
    deserialize = deserialize_class_paths_response;
    IsWritable = IsClassPathsResponse;
  });
}

abbrev pub dispose_objects_class : CommandClass
dispose_objects_class = record {
  command_set = 1;
  command = 14;
  allowed_errors = JdwpErrorCode.none ∷ [];
  Instance = DisposeObjectsCommand;
  serialize = serialize_dispose_objects_command;
  deserialize = deserialize_dispose_objects_command;
  IsWritable = IsDisposeObjectsCommand;
  response = some (record {
    Instance = DisposeObjectsResponse;
    serialize = serialize_dispose_objects_response;
    deserialize = deserialize_dispose_objects_response;
    IsWritable = λ p s c. Unit {0};
  });
}

abbrev pub hold_events_class : CommandClass
hold_events_class = record {
  command_set = 1;
  command = 15;
  allowed_errors = JdwpErrorCode.none ∷ [];
  Instance = HoldEventsCommand;
  serialize = serialize_hold_events_command;
  deserialize = deserialize_hold_events_command;
  IsWritable = λ p s c. Unit {0};
  response = some (record {
    Instance = HoldEventsResponse;
    serialize = serialize_hold_events_response;
    deserialize = deserialize_hold_events_response;
    IsWritable = λ p s c. Unit {0};
  });
}

abbrev pub release_events_class : CommandClass
release_events_class = record {
  command_set = 1;
  command = 16;
  allowed_errors = JdwpErrorCode.none ∷ [];
  Instance = ReleaseEventsCommand;
  serialize = serialize_release_events_command;
  deserialize = deserialize_release_events_command;
  IsWritable = λ p s c. Unit {0};
  response = some (record {
    Instance = ReleaseEventsResponse;
    serialize = serialize_release_events_response;
    deserialize = deserialize_release_events_response;
    IsWritable = λ p s c. Unit {0};
  });
}

abbrev pub capabilities_new_class : CommandClass
capabilities_new_class = record {
  command_set = 1;
  command = 17;
  allowed_errors = JdwpErrorCode.none ∷ JdwpErrorCode.vm_dead ∷ [];
  Instance = CapabilitiesNewCommand;
  serialize = serialize_capabilities_new_command;
  deserialize = deserialize_capabilities_new_command;
  IsWritable = λ p s c. Unit {0};
  response = some (record {
    Instance = CapabilitiesNewResponse;
    serialize = serialize_capabilities_new_response;
    deserialize = deserialize_capabilities_new_response;
    IsWritable = λ p s c. Unit {0};
  });
}

abbrev pub redefine_classes_class : CommandClass
redefine_classes_class = record {
  command_set = 1;
  command = 18;
  allowed_errors =
      JdwpErrorCode.none ∷ JdwpErrorCode.add_method_not_implemented
      ∷ JdwpErrorCode.circular_class_definition
      ∷ JdwpErrorCode.class_attribute_change_not_implemented
      ∷ JdwpErrorCode.class_modifiers_change_not_implemented
      ∷ JdwpErrorCode.delete_method_not_implemented ∷ JdwpErrorCode.fails_verification
      ∷ JdwpErrorCode.hierarchy_change_not_implemented ∷ JdwpErrorCode.invalid_class
      ∷ JdwpErrorCode.invalid_class_format ∷ JdwpErrorCode.invalid_object
      ∷ JdwpErrorCode.method_modifiers_change_not_implemented ∷ JdwpErrorCode.names_dont_match
      ∷ JdwpErrorCode.not_implemented ∷ JdwpErrorCode.schema_change_not_implemented
      ∷ JdwpErrorCode.unsupported_version ∷ JdwpErrorCode.vm_dead ∷ [];
  Instance = RedefineClassesCommand;
  serialize = serialize_redefine_classes_command;
  deserialize = deserialize_redefine_classes_command;
  IsWritable = IsRedefineClassesCommand;
  response = some (record {
    Instance = RedefineClassesResponse;
    serialize = serialize_redefine_classes_response;
    deserialize = deserialize_redefine_classes_response;
    IsWritable = λ p s c. Unit {0};
  });
}

abbrev pub set_default_stratum_class : CommandClass
set_default_stratum_class = record {
  command_set = 1;
  command = 19;
  allowed_errors = JdwpErrorCode.none ∷ JdwpErrorCode.not_implemented ∷ JdwpErrorCode.vm_dead ∷ [];
  Instance = SetDefaultStratumCommand;
  serialize = serialize_set_default_stratum_command;
  deserialize = deserialize_set_default_stratum_command;
  IsWritable = IsSetDefaultStratumCommand;
  response = some (record {
    Instance = SetDefaultStratumResponse;
    serialize = serialize_set_default_stratum_response;
    deserialize = deserialize_set_default_stratum_response;
    IsWritable = λ p s c. Unit {0};
  });
}

abbrev pub all_classes_with_generic_class : CommandClass
all_classes_with_generic_class = record {
  command_set = 1;
  command = 20;
  allowed_errors = JdwpErrorCode.none ∷ JdwpErrorCode.vm_dead ∷ [];
  Instance = AllClassesWithGenericCommand;
  serialize = serialize_all_classes_with_generic_command;
  deserialize = deserialize_all_classes_with_generic_command;
  IsWritable = λ p s c. Unit {0};
  response = some (record {
    Instance = AllClassesWithGenericResponse;
    serialize = serialize_all_classes_with_generic_response;
    deserialize = deserialize_all_classes_with_generic_response;
    IsWritable = IsAllClassesWithGenericResponse;
  });
}

abbrev pub instance_counts_class : CommandClass
instance_counts_class = record {
  command_set = 1;
  command = 21;
  allowed_errors =
      JdwpErrorCode.none ∷ JdwpErrorCode.illegal_argument ∷ JdwpErrorCode.not_implemented
      ∷ JdwpErrorCode.vm_dead ∷ [];
  Instance = InstanceCountsCommand;
  serialize = serialize_instance_counts_command;
  deserialize = deserialize_instance_counts_command;
  IsWritable = IsInstanceCountsCommand;
  response = some (record {
    Instance = InstanceCountsResponse;
    serialize = serialize_instance_counts_response;
    deserialize = deserialize_instance_counts_response;
    IsWritable = IsInstanceCountsResponse;
  });
}

abbrev pub vm_classes : List CommandClass
vm_classes =
    version_class ∷ classes_by_signature_class ∷ all_classes_class ∷ all_threads_class
    ∷ top_level_thread_groups_class ∷ dispose_class ∷ id_sizes_class ∷ suspend_class ∷ resume_class
    ∷ exit_class ∷ create_string_class ∷ capabilities_class ∷ class_paths_class
    ∷ dispose_objects_class ∷ hold_events_class ∷ release_events_class ∷ capabilities_new_class
    ∷ redefine_classes_class ∷ set_default_stratum_class ∷ all_classes_with_generic_class
    ∷ instance_counts_class ∷ []

pub vm_classes-RoundTrips : All RoundTrips vm_classes
vm_classes-RoundTrips = (
  (λ _ p s c h. RoundTrip-version_command c, λ p s c h. RoundTrip-version_response h),
  (
    (
      λ _ p s c h. RoundTrip-classes_by_signature_command h,
      λ p s c h. RoundTrip-classes_by_signature_response h,
    ),
    (
      (λ _ p s c h. RoundTrip-all_classes_command c, λ p s c h. RoundTrip-all_classes_response h),
      (
        (λ _ p s c h. RoundTrip-all_threads_command c, λ p s c h. RoundTrip-all_threads_response h),
        (
          (
            λ _ p s c h. RoundTrip-top_level_thread_groups_command c,
            λ p s c h. RoundTrip-top_level_thread_groups_response h,
          ),
          (
            (λ _ p s c h. RoundTrip-dispose_command c, λ p s c h. RoundTrip-dispose_response c),
            (
              (λ _ p s c h. RoundTrip-id_sizes_command c, λ p s c h. RoundTrip-id_sizes_response h),
              (
                (λ _ p s c h. RoundTrip-suspend_command c, λ p s c h. RoundTrip-suspend_response c),
                (
                  (λ _ p s c h. RoundTrip-resume_command c, λ p s c h. RoundTrip-resume_response c),
                  (
                    (λ _ p s c h. RoundTrip-exit_command h, λ p s c h. RoundTrip-exit_response c),
                    (
                      (
                        λ _ p s c h. RoundTrip-create_string_command h,
                        λ p s c h. RoundTrip-create_string_response h,
                      ),
                      (
                        (
                          λ _ p s c h. RoundTrip-capabilities_command c,
                          λ p s c h. RoundTrip-capabilities_response,
                        ),
                        (
                          (
                            λ _ p s c h. RoundTrip-class_paths_command c,
                            λ p s c h. RoundTrip-class_paths_response h,
                          ),
                          (
                            (
                              λ _ p s c h. RoundTrip-dispose_objects_command h,
                              λ p s c h. RoundTrip-dispose_objects_response c,
                            ),
                            (
                              (
                                λ _ p s c h. RoundTrip-hold_events_command c,
                                λ p s c h. RoundTrip-hold_events_response c,
                              ),
                              (
                                (
                                  λ _ p s c h. RoundTrip-release_events_command c,
                                  λ p s c h. RoundTrip-release_events_response c,
                                ),
                                (
                                  (
                                    λ _ p s c h. RoundTrip-capabilities_new_command c,
                                    λ p s c h. RoundTrip-capabilities_new_response,
                                  ),
                                  (
                                    (
                                      λ _ p s c h. RoundTrip-redefine_classes_command h,
                                      λ p s c h. RoundTrip-redefine_classes_response c,
                                    ),
                                    (
                                      (
                                        λ _ p s c h. RoundTrip-set_default_stratum_command h,
                                        λ p s c h. RoundTrip-set_default_stratum_response c,
                                      ),
                                      (
                                        (
                                          λ _ p s c h. RoundTrip-all_classes_with_generic_command c,
                                          λ p s c h. RoundTrip-all_classes_with_generic_response h,
                                        ),
                                        (
                                          (
                                            λ _ p s c h. RoundTrip-instance_counts_command h,
                                            λ p s c h. RoundTrip-instance_counts_response h,
                                          ),
                                          tt,
                                        ),
                                      ),
                                    ),
                                  ),
                                ),
                              ),
                            ),
                          ),
                        ),
                      ),
                    ),
                  ),
                ),
              ),
            ),
          ),
        ),
      ),
    ),
  ),
)
