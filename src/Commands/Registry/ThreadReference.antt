-- ===== src/Commands/Registry/ThreadReference.antt =====
-- The classes that src/jdwpy/commands/thread_reference.py registers.
use jdwpy.Prelude.{All, List, [], some, ◌∷◌}
use jdwpy.Constants.ErrorCode.{JdwpErrorCode}
use jdwpy.Commands.ThreadReference.Control.{
  IsNameCommand, IsNameResponse, IsResumeCommand, IsStatusCommand, IsSuspendCommand, NameCommand,
  NameResponse, ResumeCommand, ResumeResponse, RoundTrip-name_command, RoundTrip-name_response,
  RoundTrip-resume_command, RoundTrip-resume_response, RoundTrip-status_command,
  RoundTrip-status_response, RoundTrip-suspend_command, RoundTrip-suspend_response, StatusCommand,
  StatusResponse, SuspendCommand, SuspendResponse, deserialize_name_command,
  deserialize_name_response, deserialize_resume_command, deserialize_resume_response,
  deserialize_status_command, deserialize_status_response, deserialize_suspend_command,
  deserialize_suspend_response, serialize_name_command, serialize_name_response,
  serialize_resume_command, serialize_resume_response, serialize_status_command,
  serialize_status_response, serialize_suspend_command, serialize_suspend_response,
}
use jdwpy.Commands.ThreadReference.Frames.{
  FrameCountCommand, FrameCountResponse, FramesCommand, FramesResponse, IsFrameCountCommand,
  IsFrameCountResponse, IsFramesCommand, IsFramesResponse, IsThreadGroupCommand,
  IsThreadGroupResponse, RoundTrip-frame_count_command, RoundTrip-frame_count_response,
  RoundTrip-frames_command, RoundTrip-frames_response, RoundTrip-thread_group_command,
  RoundTrip-thread_group_response, ThreadGroupCommand, ThreadGroupResponse,
  deserialize_frame_count_command, deserialize_frame_count_response, deserialize_frames_command,
  deserialize_frames_response, deserialize_thread_group_command, deserialize_thread_group_response,
  serialize_frame_count_command, serialize_frame_count_response, serialize_frames_command,
  serialize_frames_response, serialize_thread_group_command, serialize_thread_group_response,
}
use jdwpy.Commands.ThreadReference.Monitors.{
  CurrentContendedMonitorCommand, CurrentContendedMonitorResponse, IsCurrentContendedMonitorCommand,
  IsCurrentContendedMonitorResponse, IsOwnedMonitorsCommand, IsOwnedMonitorsResponse,
  IsOwnedMonitorsStackDepthInfoCommand, IsOwnedMonitorsStackDepthInfoResponse, OwnedMonitorsCommand,
  OwnedMonitorsResponse, OwnedMonitorsStackDepthInfoCommand, OwnedMonitorsStackDepthInfoResponse,
  RoundTrip-current_contended_monitor_command, RoundTrip-current_contended_monitor_response,
  RoundTrip-owned_monitors_command, RoundTrip-owned_monitors_response,
  RoundTrip-owned_monitors_stack_depth_info_command,
  RoundTrip-owned_monitors_stack_depth_info_response, deserialize_current_contended_monitor_command,
  deserialize_current_contended_monitor_response, deserialize_owned_monitors_command,
  deserialize_owned_monitors_response, deserialize_owned_monitors_stack_depth_info_command,
  deserialize_owned_monitors_stack_depth_info_response, serialize_current_contended_monitor_command,
  serialize_current_contended_monitor_response, serialize_owned_monitors_command,
  serialize_owned_monitors_response, serialize_owned_monitors_stack_depth_info_command,
  serialize_owned_monitors_stack_depth_info_response,
}
use jdwpy.Commands.ThreadReference.Stopping.{
  ForceEarlyReturnCommand, ForceEarlyReturnResponse, InterruptCommand, InterruptResponse,
  IsForceEarlyReturnCommand, IsInterruptCommand, IsStopCommand, IsSuspendCountCommand,
  IsSuspendCountResponse, RoundTrip-force_early_return_command,
  RoundTrip-force_early_return_response, RoundTrip-interrupt_command, RoundTrip-interrupt_response,
  RoundTrip-stop_command, RoundTrip-stop_response, RoundTrip-suspend_count_command,
  RoundTrip-suspend_count_response, StopCommand, StopResponse, SuspendCountCommand,
  SuspendCountResponse, deserialize_force_early_return_command,
  deserialize_force_early_return_response, deserialize_interrupt_command,
  deserialize_interrupt_response, deserialize_stop_command, deserialize_stop_response,
  deserialize_suspend_count_command, deserialize_suspend_count_response,
  serialize_force_early_return_command, serialize_force_early_return_response,
  serialize_interrupt_command, serialize_interrupt_response, serialize_stop_command,
  serialize_stop_response, serialize_suspend_count_command, serialize_suspend_count_response,
}
use jdwpy.Commands.Registry.{CommandClass, RoundTrips}

abbrev pub name_class : CommandClass
name_class = record {
  command_set = 11;
  command = 1;
  allowed_errors =
      JdwpErrorCode.none ∷ JdwpErrorCode.invalid_object ∷ JdwpErrorCode.invalid_thread
      ∷ JdwpErrorCode.vm_dead ∷ [];
  Instance = NameCommand;
  serialize = serialize_name_command;
  deserialize = deserialize_name_command;
  IsWritable = IsNameCommand;
  response = some (record {
    Instance = NameResponse;
    serialize = serialize_name_response;
    deserialize = deserialize_name_response;
    IsWritable = IsNameResponse;
  });
}

abbrev pub suspend_class : CommandClass
suspend_class = record {
  command_set = 11;
  command = 2;
  allowed_errors =
      JdwpErrorCode.none ∷ JdwpErrorCode.invalid_object ∷ JdwpErrorCode.invalid_thread
      ∷ JdwpErrorCode.vm_dead ∷ [];
  Instance = SuspendCommand;
  serialize = serialize_suspend_command;
  deserialize = deserialize_suspend_command;
  IsWritable = IsSuspendCommand;
  response = some (record {
    Instance = SuspendResponse;
    serialize = serialize_suspend_response;
    deserialize = deserialize_suspend_response;
    IsWritable = λ p s c. Unit {0};
  });
}

abbrev pub resume_class : CommandClass
resume_class = record {
  command_set = 11;
  command = 3;
  allowed_errors =
      JdwpErrorCode.none ∷ JdwpErrorCode.invalid_object ∷ JdwpErrorCode.invalid_thread
      ∷ JdwpErrorCode.vm_dead ∷ [];
  Instance = ResumeCommand;
  serialize = serialize_resume_command;
  deserialize = deserialize_resume_command;
  IsWritable = IsResumeCommand;
  response = some (record {
    Instance = ResumeResponse;
    serialize = serialize_resume_response;
    deserialize = deserialize_resume_response;
    IsWritable = λ p s c. Unit {0};
  });
}

abbrev pub status_class : CommandClass
status_class = record {
  command_set = 11;
  command = 4;
  allowed_errors =
      JdwpErrorCode.none ∷ JdwpErrorCode.invalid_object ∷ JdwpErrorCode.invalid_thread
      ∷ JdwpErrorCode.vm_dead ∷ [];
  Instance = StatusCommand;
  serialize = serialize_status_command;
  deserialize = deserialize_status_command;
  IsWritable = IsStatusCommand;
  response = some (record {
    Instance = StatusResponse;
    serialize = serialize_status_response;
    deserialize = deserialize_status_response;
    IsWritable = λ p s c. Unit {0};
  });
}

abbrev pub thread_group_class : CommandClass
thread_group_class = record {
  command_set = 11;
  command = 5;
  allowed_errors =
      JdwpErrorCode.none ∷ JdwpErrorCode.invalid_object ∷ JdwpErrorCode.invalid_thread
      ∷ JdwpErrorCode.vm_dead ∷ [];
  Instance = ThreadGroupCommand;
  serialize = serialize_thread_group_command;
  deserialize = deserialize_thread_group_command;
  IsWritable = IsThreadGroupCommand;
  response = some (record {
    Instance = ThreadGroupResponse;
    serialize = serialize_thread_group_response;
    deserialize = deserialize_thread_group_response;
    IsWritable = IsThreadGroupResponse;
  });
}

abbrev pub frames_class : CommandClass
frames_class = record {
  command_set = 11;
  command = 6;
  allowed_errors =
      JdwpErrorCode.none ∷ JdwpErrorCode.invalid_object ∷ JdwpErrorCode.invalid_thread
      ∷ JdwpErrorCode.vm_dead ∷ [];
  Instance = FramesCommand;
  serialize = serialize_frames_command;
  deserialize = deserialize_frames_command;
  IsWritable = IsFramesCommand;
  response = some (record {
    Instance = FramesResponse;
    serialize = serialize_frames_response;
    deserialize = deserialize_frames_response;
    IsWritable = IsFramesResponse;
  });
}

abbrev pub frame_count_class : CommandClass
frame_count_class = record {
  command_set = 11;
  command = 7;
  allowed_errors =
      JdwpErrorCode.none ∷ JdwpErrorCode.invalid_object ∷ JdwpErrorCode.invalid_thread
      ∷ JdwpErrorCode.vm_dead ∷ [];
  Instance = FrameCountCommand;
  serialize = serialize_frame_count_command;
  deserialize = deserialize_frame_count_command;
  IsWritable = IsFrameCountCommand;
  response = some (record {
    Instance = FrameCountResponse;
    serialize = serialize_frame_count_response;
    deserialize = deserialize_frame_count_response;
    IsWritable = IsFrameCountResponse;
  });
}

abbrev pub owned_monitors_class : CommandClass
owned_monitors_class = record {
  command_set = 11;
  command = 8;
  allowed_errors =
      JdwpErrorCode.none ∷ JdwpErrorCode.invalid_object ∷ JdwpErrorCode.invalid_thread
      ∷ JdwpErrorCode.not_implemented ∷ JdwpErrorCode.vm_dead ∷ [];
  Instance = OwnedMonitorsCommand;
  serialize = serialize_owned_monitors_command;
  deserialize = deserialize_owned_monitors_command;
  IsWritable = IsOwnedMonitorsCommand;
  response = some (record {
    Instance = OwnedMonitorsResponse;
    serialize = serialize_owned_monitors_response;
    deserialize = deserialize_owned_monitors_response;
    IsWritable = IsOwnedMonitorsResponse;
  });
}

abbrev pub current_contended_monitor_class : CommandClass
current_contended_monitor_class = record {
  command_set = 11;
  command = 9;
  allowed_errors =
      JdwpErrorCode.none ∷ JdwpErrorCode.invalid_object ∷ JdwpErrorCode.invalid_thread
      ∷ JdwpErrorCode.not_implemented ∷ JdwpErrorCode.vm_dead ∷ [];
  Instance = CurrentContendedMonitorCommand;
  serialize = serialize_current_contended_monitor_command;
  deserialize = deserialize_current_contended_monitor_command;
  IsWritable = IsCurrentContendedMonitorCommand;
  response = some (record {
    Instance = CurrentContendedMonitorResponse;
    serialize = serialize_current_contended_monitor_response;
    deserialize = deserialize_current_contended_monitor_response;
    IsWritable = IsCurrentContendedMonitorResponse;
  });
}

abbrev pub stop_class : CommandClass
stop_class = record {
  command_set = 11;
  command = 10;
  allowed_errors =
      JdwpErrorCode.none ∷ JdwpErrorCode.invalid_object ∷ JdwpErrorCode.invalid_thread
      ∷ JdwpErrorCode.opaque_frame ∷ JdwpErrorCode.thread_not_suspended ∷ JdwpErrorCode.vm_dead
      ∷ [];
  Instance = StopCommand;
  serialize = serialize_stop_command;
  deserialize = deserialize_stop_command;
  IsWritable = IsStopCommand;
  response = some (record {
    Instance = StopResponse;
    serialize = serialize_stop_response;
    deserialize = deserialize_stop_response;
    IsWritable = λ p s c. Unit {0};
  });
}

abbrev pub interrupt_class : CommandClass
interrupt_class = record {
  command_set = 11;
  command = 11;
  allowed_errors =
      JdwpErrorCode.none ∷ JdwpErrorCode.invalid_object ∷ JdwpErrorCode.invalid_thread
      ∷ JdwpErrorCode.vm_dead ∷ [];
  Instance = InterruptCommand;
  serialize = serialize_interrupt_command;
  deserialize = deserialize_interrupt_command;
  IsWritable = IsInterruptCommand;
  response = some (record {
    Instance = InterruptResponse;
    serialize = serialize_interrupt_response;
    deserialize = deserialize_interrupt_response;
    IsWritable = λ p s c. Unit {0};
  });
}

abbrev pub suspend_count_class : CommandClass
suspend_count_class = record {
  command_set = 11;
  command = 12;
  allowed_errors =
      JdwpErrorCode.none ∷ JdwpErrorCode.invalid_object ∷ JdwpErrorCode.invalid_thread
      ∷ JdwpErrorCode.vm_dead ∷ [];
  Instance = SuspendCountCommand;
  serialize = serialize_suspend_count_command;
  deserialize = deserialize_suspend_count_command;
  IsWritable = IsSuspendCountCommand;
  response = some (record {
    Instance = SuspendCountResponse;
    serialize = serialize_suspend_count_response;
    deserialize = deserialize_suspend_count_response;
    IsWritable = IsSuspendCountResponse;
  });
}

abbrev pub owned_monitors_stack_depth_info_class : CommandClass
owned_monitors_stack_depth_info_class = record {
  command_set = 11;
  command = 13;
  allowed_errors = JdwpErrorCode.none ∷ [];
  Instance = OwnedMonitorsStackDepthInfoCommand;
  serialize = serialize_owned_monitors_stack_depth_info_command;
  deserialize = deserialize_owned_monitors_stack_depth_info_command;
  IsWritable = IsOwnedMonitorsStackDepthInfoCommand;
  response = some (record {
    Instance = OwnedMonitorsStackDepthInfoResponse;
    serialize = serialize_owned_monitors_stack_depth_info_response;
    deserialize = deserialize_owned_monitors_stack_depth_info_response;
    IsWritable = IsOwnedMonitorsStackDepthInfoResponse;
  });
}

abbrev pub force_early_return_class : CommandClass
force_early_return_class = record {
  command_set = 11;
  command = 14;
  allowed_errors =
      JdwpErrorCode.none ∷ JdwpErrorCode.invalid_object ∷ JdwpErrorCode.invalid_thread
      ∷ JdwpErrorCode.not_implemented ∷ JdwpErrorCode.no_more_frames ∷ JdwpErrorCode.opaque_frame
      ∷ JdwpErrorCode.thread_not_suspended ∷ JdwpErrorCode.type_mismatch ∷ JdwpErrorCode.vm_dead
      ∷ [];
  Instance = ForceEarlyReturnCommand;
  serialize = serialize_force_early_return_command;
  deserialize = deserialize_force_early_return_command;
  IsWritable = IsForceEarlyReturnCommand;
  response = some (record {
    Instance = ForceEarlyReturnResponse;
    serialize = serialize_force_early_return_response;
    deserialize = deserialize_force_early_return_response;
    IsWritable = λ p s c. Unit {0};
  });
}

abbrev pub thread_reference_classes : List CommandClass
thread_reference_classes =
    name_class ∷ suspend_class ∷ resume_class ∷ status_class ∷ thread_group_class ∷ frames_class
    ∷ frame_count_class ∷ owned_monitors_class ∷ current_contended_monitor_class ∷ stop_class
    ∷ interrupt_class ∷ suspend_count_class ∷ owned_monitors_stack_depth_info_class
    ∷ force_early_return_class ∷ []

pub thread_reference_classes-RoundTrips : All RoundTrips thread_reference_classes
thread_reference_classes-RoundTrips = (
  (λ _ p s c h. RoundTrip-name_command h, λ p s c h. RoundTrip-name_response h),
  (
    (λ _ p s c h. RoundTrip-suspend_command h, λ p s c h. RoundTrip-suspend_response c),
    (
      (λ _ p s c h. RoundTrip-resume_command h, λ p s c h. RoundTrip-resume_response c),
      (
        (λ _ p s c h. RoundTrip-status_command h, λ p s c h. RoundTrip-status_response),
        (
          (
            λ _ p s c h. RoundTrip-thread_group_command h,
            λ p s c h. RoundTrip-thread_group_response h,
          ),
          (
            (λ _ p s c h. RoundTrip-frames_command h, λ p s c h. RoundTrip-frames_response h),
            (
              (
                λ _ p s c h. RoundTrip-frame_count_command h,
                λ p s c h. RoundTrip-frame_count_response h,
              ),
              (
                (
                  λ _ p s c h. RoundTrip-owned_monitors_command h,
                  λ p s c h. RoundTrip-owned_monitors_response h,
                ),
                (
                  (
                    λ _ p s c h. RoundTrip-current_contended_monitor_command h,
                    λ p s c h. RoundTrip-current_contended_monitor_response h,
                  ),
                  (
                    (λ _ p s c h. RoundTrip-stop_command h, λ p s c h. RoundTrip-stop_response c),
                    (
                      (
                        λ _ p s c h. RoundTrip-interrupt_command h,
                        λ p s c h. RoundTrip-interrupt_response c,
                      ),
                      (
                        (
                          λ _ p s c h. RoundTrip-suspend_count_command h,
                          λ p s c h. RoundTrip-suspend_count_response h,
                        ),
                        (
                          (
                            λ _ p s c h. RoundTrip-owned_monitors_stack_depth_info_command h,
                            λ p s c h. RoundTrip-owned_monitors_stack_depth_info_response h,
                          ),
                          (
                            (
                              λ _ p s c h. RoundTrip-force_early_return_command h,
                              λ p s c h. RoundTrip-force_early_return_response c,
                            ),
                            tt,
                          ),
                        ),
                      ),
                    ),
                  ),
                ),
              ),
            ),
          ),
        ),
      ),
    ),
  ),
)
