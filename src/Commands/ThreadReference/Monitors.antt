-- ===== src/Commands/ThreadReference/Monitors.antt =====
-- src/jdwpy/commands/thread_reference.py: OwnedMonitors, CurrentContendedMonitor, OwnedMonitorsStackDepthInfo.
use jdwpy.Prelude.{All, List, length}
use jdwpy.Prelude.Int.{pos, ℤ}
use jdwpy.Spec.{IdSizesSpec, TaggedObjectId}
use jdwpy.Io.{Platform, Read, Write, for_each, read_list, return, ◌>>=◌, ◌>>◌}
use jdwpy.Io.Ranges.{IsId, IsInt}
use jdwpy.Io.Reader.{read_int, read_tagged_object, read_thread_id}
use jdwpy.Io.Writer.{write_int, write_tagged_object, write_thread_id}
use jdwpy.Io.Codec.{RoundTrip, RoundTrip-All, RoundTrip-last, RoundTrip-seq}
use jdwpy.Io.Primitives.{RoundTrip-int, RoundTrip-object_id}
use jdwpy.Io.Fields.{IsTaggedObject, RoundTrip-tagged_object}

pub record OwnedMonitorsResponse : Type 0 where
  pub monitors : List TaggedObjectId

unfoldable pub serialize_owned_monitors_response : OwnedMonitorsResponse → Write
serialize_owned_monitors_response c = do
  write_int (pos (length c.monitors))
  for_each c.monitors write_tagged_object

unfoldable pub deserialize_owned_monitors_response : Read OwnedMonitorsResponse
deserialize_owned_monitors_response = do
  num ← read_int
  monitors ← read_list num read_tagged_object
  return (record { monitors = monitors })

abbrev pub IsOwnedMonitorsResponse : Platform → IdSizesSpec → OwnedMonitorsResponse → Type 0
IsOwnedMonitorsResponse p s c =
    IsInt (pos (length c.monitors)) × All (λ x. IsTaggedObject s x) c.monitors

pub RoundTrip-owned_monitors_response :
    {p : Platform} {s : IdSizesSpec} {c : OwnedMonitorsResponse}
    → IsOwnedMonitorsResponse p s c
    → RoundTrip p s (serialize_owned_monitors_response c) deserialize_owned_monitors_response c
unfolding serialize_owned_monitors_response deserialize_owned_monitors_response
RoundTrip-owned_monitors_response {s = s} {c = c} h = RoundTrip-seq _ (RoundTrip-int h.0) (
    RoundTrip-last _ (
      RoundTrip-All write_tagged_object read_tagged_object (λ x. IsTaggedObject s x) c.monitors
        (λ x h. RoundTrip-tagged_object h) h.1))

pub record OwnedMonitorsCommand : Type 0 where
  pub thread : ℤ

unfoldable pub serialize_owned_monitors_command : OwnedMonitorsCommand → Write
serialize_owned_monitors_command c = write_thread_id c.thread

unfoldable pub deserialize_owned_monitors_command : Read OwnedMonitorsCommand
deserialize_owned_monitors_command = do thread ← read_thread_id; return (record { thread = thread })

abbrev pub IsOwnedMonitorsCommand : Platform → IdSizesSpec → OwnedMonitorsCommand → Type 0
IsOwnedMonitorsCommand p s c = IsId s.object_id_struct c.thread

pub RoundTrip-owned_monitors_command :
    {p : Platform} {s : IdSizesSpec} {c : OwnedMonitorsCommand}
    → IsOwnedMonitorsCommand p s c
    → RoundTrip p s (serialize_owned_monitors_command c) deserialize_owned_monitors_command c
unfolding serialize_owned_monitors_command deserialize_owned_monitors_command
RoundTrip-owned_monitors_command h = RoundTrip-last _ (RoundTrip-object_id h)

pub record CurrentContendedMonitorResponse : Type 0 where
  pub monitor : TaggedObjectId

unfoldable pub serialize_current_contended_monitor_response :
    CurrentContendedMonitorResponse → Write
serialize_current_contended_monitor_response c = write_tagged_object c.monitor

unfoldable pub deserialize_current_contended_monitor_response : Read CurrentContendedMonitorResponse
deserialize_current_contended_monitor_response = do
  monitor ← read_tagged_object
  return (record { monitor = monitor })

abbrev pub IsCurrentContendedMonitorResponse :
    Platform → IdSizesSpec → CurrentContendedMonitorResponse → Type 0
IsCurrentContendedMonitorResponse p s c = IsTaggedObject s c.monitor

pub RoundTrip-current_contended_monitor_response :
    {p : Platform} {s : IdSizesSpec} {c : CurrentContendedMonitorResponse}
    → IsCurrentContendedMonitorResponse p s c
    → RoundTrip p s
        (serialize_current_contended_monitor_response c)
        deserialize_current_contended_monitor_response
        c
unfolding serialize_current_contended_monitor_response
    deserialize_current_contended_monitor_response
RoundTrip-current_contended_monitor_response h = RoundTrip-last _ (RoundTrip-tagged_object h)

pub record CurrentContendedMonitorCommand : Type 0 where
  pub thread : ℤ

unfoldable pub serialize_current_contended_monitor_command : CurrentContendedMonitorCommand → Write
serialize_current_contended_monitor_command c = write_thread_id c.thread

unfoldable pub deserialize_current_contended_monitor_command : Read CurrentContendedMonitorCommand
deserialize_current_contended_monitor_command = do
  thread ← read_thread_id
  return (record { thread = thread })

abbrev pub IsCurrentContendedMonitorCommand :
    Platform → IdSizesSpec → CurrentContendedMonitorCommand → Type 0
IsCurrentContendedMonitorCommand p s c = IsId s.object_id_struct c.thread

pub RoundTrip-current_contended_monitor_command :
    {p : Platform} {s : IdSizesSpec} {c : CurrentContendedMonitorCommand}
    → IsCurrentContendedMonitorCommand p s c
    → RoundTrip p s
        (serialize_current_contended_monitor_command c)
        deserialize_current_contended_monitor_command
        c
unfolding serialize_current_contended_monitor_command deserialize_current_contended_monitor_command
RoundTrip-current_contended_monitor_command h = RoundTrip-last _ (RoundTrip-object_id h)

pub record MonitorStackDepthInfoEntry : Type 0 where
  pub monitor : TaggedObjectId
  pub stack_depth : ℤ

unfoldable pub serialize_monitor_stack_depth_info_entry : MonitorStackDepthInfoEntry → Write
serialize_monitor_stack_depth_info_entry c = do
  write_tagged_object c.monitor
  write_int c.stack_depth

unfoldable pub deserialize_monitor_stack_depth_info_entry : Read MonitorStackDepthInfoEntry
deserialize_monitor_stack_depth_info_entry = do
  monitor ← read_tagged_object
  stack_depth ← read_int
  return (record { monitor = monitor; stack_depth = stack_depth })

abbrev pub IsMonitorStackDepthInfoEntry :
    Platform → IdSizesSpec → MonitorStackDepthInfoEntry → Type 0
IsMonitorStackDepthInfoEntry p s c = IsTaggedObject s c.monitor × IsInt c.stack_depth

pub RoundTrip-monitor_stack_depth_info_entry :
    {p : Platform} {s : IdSizesSpec} {c : MonitorStackDepthInfoEntry}
    → IsMonitorStackDepthInfoEntry p s c
    → RoundTrip p s
        (serialize_monitor_stack_depth_info_entry c)
        deserialize_monitor_stack_depth_info_entry
        c
unfolding serialize_monitor_stack_depth_info_entry deserialize_monitor_stack_depth_info_entry
RoundTrip-monitor_stack_depth_info_entry h =
    RoundTrip-seq _ (RoundTrip-tagged_object h.0) (RoundTrip-last _ (RoundTrip-int h.1))

pub record OwnedMonitorsStackDepthInfoResponse : Type 0 where
  pub monitors : List MonitorStackDepthInfoEntry

unfoldable pub serialize_owned_monitors_stack_depth_info_response :
    OwnedMonitorsStackDepthInfoResponse → Write
serialize_owned_monitors_stack_depth_info_response c = do
  write_int (pos (length c.monitors))
  for_each c.monitors serialize_monitor_stack_depth_info_entry

unfoldable pub deserialize_owned_monitors_stack_depth_info_response :
    Read OwnedMonitorsStackDepthInfoResponse
deserialize_owned_monitors_stack_depth_info_response = do
  num ← read_int
  monitors ← read_list num deserialize_monitor_stack_depth_info_entry
  return (record { monitors = monitors })

abbrev pub IsOwnedMonitorsStackDepthInfoResponse :
    Platform → IdSizesSpec → OwnedMonitorsStackDepthInfoResponse → Type 0
IsOwnedMonitorsStackDepthInfoResponse p s c =
    IsInt (pos (length c.monitors)) × All (IsMonitorStackDepthInfoEntry p s) c.monitors

pub RoundTrip-owned_monitors_stack_depth_info_response :
    {p : Platform} {s : IdSizesSpec} {c : OwnedMonitorsStackDepthInfoResponse}
    → IsOwnedMonitorsStackDepthInfoResponse p s c
    → RoundTrip p s
        (serialize_owned_monitors_stack_depth_info_response c)
        deserialize_owned_monitors_stack_depth_info_response
        c
unfolding serialize_owned_monitors_stack_depth_info_response
    deserialize_owned_monitors_stack_depth_info_response
RoundTrip-owned_monitors_stack_depth_info_response {p = p} {s = s} {c = c} h =
    RoundTrip-seq _ (RoundTrip-int h.0) (
      RoundTrip-last _ (
        RoundTrip-All serialize_monitor_stack_depth_info_entry
          deserialize_monitor_stack_depth_info_entry (IsMonitorStackDepthInfoEntry p s) c.monitors
          (λ x h. RoundTrip-monitor_stack_depth_info_entry h) h.1))

pub record OwnedMonitorsStackDepthInfoCommand : Type 0 where
  pub thread : ℤ

unfoldable pub serialize_owned_monitors_stack_depth_info_command :
    OwnedMonitorsStackDepthInfoCommand → Write
serialize_owned_monitors_stack_depth_info_command c = write_thread_id c.thread

unfoldable pub deserialize_owned_monitors_stack_depth_info_command :
    Read OwnedMonitorsStackDepthInfoCommand
deserialize_owned_monitors_stack_depth_info_command = do
  thread ← read_thread_id
  return (record { thread = thread })

abbrev pub IsOwnedMonitorsStackDepthInfoCommand :
    Platform → IdSizesSpec → OwnedMonitorsStackDepthInfoCommand → Type 0
IsOwnedMonitorsStackDepthInfoCommand p s c = IsId s.object_id_struct c.thread

pub RoundTrip-owned_monitors_stack_depth_info_command :
    {p : Platform} {s : IdSizesSpec} {c : OwnedMonitorsStackDepthInfoCommand}
    → IsOwnedMonitorsStackDepthInfoCommand p s c
    → RoundTrip p s
        (serialize_owned_monitors_stack_depth_info_command c)
        deserialize_owned_monitors_stack_depth_info_command
        c
unfolding serialize_owned_monitors_stack_depth_info_command
    deserialize_owned_monitors_stack_depth_info_command
RoundTrip-owned_monitors_stack_depth_info_command h = RoundTrip-last _ (RoundTrip-object_id h)
