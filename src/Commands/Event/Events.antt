-- ===== src/Commands/Event/Events.antt =====
-- The sum of the events of src/jdwpy/commands/event.py, and their dispatch by the event kind.
use jdwpy.Prelude.Int.{ℤ}
use jdwpy.Struct.{value_error}
use jdwpy.Constants.EventKind.{JdwpEventKind}
use jdwpy.Spec.{IdSizesSpec}
use jdwpy.Io.{Platform, Read, Write, raise, return, ◌>>=◌, ◌>>◌}
use jdwpy.Io.Ranges.{IsInt}
use jdwpy.Io.Reader.{read_int}
use jdwpy.Io.Writer.{write_int}
use jdwpy.Io.Codec.{RoundTrip, RoundTrip-last, RoundTrip-seq}
use jdwpy.Io.Primitives.{RoundTrip-int}
use jdwpy.Commands.Members.{RoundTrip-event_kind, read_event_kind, write_event_kind}
use jdwpy.Commands.Event.Steps.{
  BreakpointEvent, IsBreakpointEvent, IsMethodEntryEvent, IsMethodExitEvent,
  IsMethodExitWithReturnValueEvent, IsSingleStepEvent, MethodEntryEvent, MethodExitEvent,
  MethodExitWithReturnValueEvent, RoundTrip-breakpoint_event, RoundTrip-method_entry_event,
  RoundTrip-method_exit_event, RoundTrip-method_exit_with_return_value_event,
  RoundTrip-single_step_event, SingleStepEvent, deserialize_breakpoint_event,
  deserialize_method_entry_event, deserialize_method_exit_event,
  deserialize_method_exit_with_return_value_event, deserialize_single_step_event,
  serialize_breakpoint_event, serialize_method_entry_event, serialize_method_exit_event,
  serialize_method_exit_with_return_value_event, serialize_single_step_event,
}
use jdwpy.Commands.Event.Monitors.{
  IsMonitorContendedEnterEvent, IsMonitorContendedEnteredEvent, IsMonitorWaitEvent,
  IsMonitorWaitedEvent, MonitorContendedEnterEvent, MonitorContendedEnteredEvent, MonitorWaitEvent,
  MonitorWaitedEvent, RoundTrip-monitor_contended_enter_event,
  RoundTrip-monitor_contended_entered_event, RoundTrip-monitor_wait_event,
  RoundTrip-monitor_waited_event, deserialize_monitor_contended_enter_event,
  deserialize_monitor_contended_entered_event, deserialize_monitor_wait_event,
  deserialize_monitor_waited_event, serialize_monitor_contended_enter_event,
  serialize_monitor_contended_entered_event, serialize_monitor_wait_event,
  serialize_monitor_waited_event,
}
use jdwpy.Commands.Event.Machine.{
  ClassPrepareEvent, ClassUnloadEvent, IsClassPrepareEvent, IsClassUnloadEvent, IsThreadDeathEvent,
  IsThreadStartEvent, IsVmStartEvent, RoundTrip-class_prepare_event, RoundTrip-class_unload_event,
  RoundTrip-thread_death_event, RoundTrip-thread_start_event, RoundTrip-vm_death_event,
  RoundTrip-vm_start_event, ThreadDeathEvent, ThreadStartEvent, VmDeathEvent, VmStartEvent,
  deserialize_class_prepare_event, deserialize_class_unload_event, deserialize_thread_death_event,
  deserialize_thread_start_event, deserialize_vm_death_event, deserialize_vm_start_event,
  serialize_class_prepare_event, serialize_class_unload_event, serialize_thread_death_event,
  serialize_thread_start_event, serialize_vm_death_event, serialize_vm_start_event,
}
use jdwpy.Commands.Event.Fields.{
  ExceptionEvent, FieldAccessEvent, FieldModificationEvent, IsExceptionEvent, IsFieldAccessEvent,
  IsFieldModificationEvent, RoundTrip-exception_event, RoundTrip-field_access_event,
  RoundTrip-field_modification_event, deserialize_exception_event, deserialize_field_access_event,
  deserialize_field_modification_event, serialize_exception_event, serialize_field_access_event,
  serialize_field_modification_event,
}

pub data JdwpEvent : Type 0 where
  single_step : SingleStepEvent → JdwpEvent
  breakpoint : BreakpointEvent → JdwpEvent
  method_entry : MethodEntryEvent → JdwpEvent
  method_exit : MethodExitEvent → JdwpEvent
  method_exit_with_return_value : MethodExitWithReturnValueEvent → JdwpEvent
  monitor_contended_enter : MonitorContendedEnterEvent → JdwpEvent
  monitor_contended_entered : MonitorContendedEnteredEvent → JdwpEvent
  monitor_wait : MonitorWaitEvent → JdwpEvent
  monitor_waited : MonitorWaitedEvent → JdwpEvent
  vm_start : VmStartEvent → JdwpEvent
  thread_start : ThreadStartEvent → JdwpEvent
  thread_death : ThreadDeathEvent → JdwpEvent
  vm_death : VmDeathEvent → JdwpEvent
  class_prepare : ClassPrepareEvent → JdwpEvent
  class_unload : ClassUnloadEvent → JdwpEvent
  exception : ExceptionEvent → JdwpEvent
  field_access : FieldAccessEvent → JdwpEvent
  field_modification : FieldModificationEvent → JdwpEvent

-- `event.event_kind`
unfoldable pub event_kind : JdwpEvent → JdwpEventKind
event_kind (single_step _) = JdwpEventKind.single_step
event_kind (breakpoint _) = JdwpEventKind.breakpoint
event_kind (method_entry _) = JdwpEventKind.method_entry
event_kind (method_exit _) = JdwpEventKind.method_exit
event_kind (method_exit_with_return_value _) = JdwpEventKind.method_exit_with_return_value
event_kind (monitor_contended_enter _) = JdwpEventKind.monitor_contended_enter
event_kind (monitor_contended_entered _) = JdwpEventKind.monitor_contended_entered
event_kind (monitor_wait _) = JdwpEventKind.monitor_wait
event_kind (monitor_waited _) = JdwpEventKind.monitor_waited
event_kind (vm_start _) = JdwpEventKind.vm_start
event_kind (thread_start _) = JdwpEventKind.thread_start
event_kind (thread_death _) = JdwpEventKind.thread_death
event_kind (vm_death _) = JdwpEventKind.vm_death
event_kind (class_prepare _) = JdwpEventKind.class_prepare
event_kind (class_unload _) = JdwpEventKind.class_unload
event_kind (exception _) = JdwpEventKind.exception
event_kind (field_access _) = JdwpEventKind.field_access
event_kind (field_modification _) = JdwpEventKind.field_modification

-- `event.request_id`
unfoldable pub event_request_id : JdwpEvent → ℤ
event_request_id (single_step e) = e.request_id
event_request_id (breakpoint e) = e.request_id
event_request_id (method_entry e) = e.request_id
event_request_id (method_exit e) = e.request_id
event_request_id (method_exit_with_return_value e) = e.request_id
event_request_id (monitor_contended_enter e) = e.request_id
event_request_id (monitor_contended_entered e) = e.request_id
event_request_id (monitor_wait e) = e.request_id
event_request_id (monitor_waited e) = e.request_id
event_request_id (vm_start e) = e.request_id
event_request_id (thread_start e) = e.request_id
event_request_id (thread_death e) = e.request_id
event_request_id (vm_death e) = e.request_id
event_request_id (class_prepare e) = e.request_id
event_request_id (class_unload e) = e.request_id
event_request_id (exception e) = e.request_id
event_request_id (field_access e) = e.request_id
event_request_id (field_modification e) = e.request_id

-- `event.serialize(writer)`
unfoldable pub serialize_fields : JdwpEvent → Write
serialize_fields (single_step e) = serialize_single_step_event e
serialize_fields (breakpoint e) = serialize_breakpoint_event e
serialize_fields (method_entry e) = serialize_method_entry_event e
serialize_fields (method_exit e) = serialize_method_exit_event e
serialize_fields (method_exit_with_return_value e) = serialize_method_exit_with_return_value_event e
serialize_fields (monitor_contended_enter e) = serialize_monitor_contended_enter_event e
serialize_fields (monitor_contended_entered e) = serialize_monitor_contended_entered_event e
serialize_fields (monitor_wait e) = serialize_monitor_wait_event e
serialize_fields (monitor_waited e) = serialize_monitor_waited_event e
serialize_fields (vm_start e) = serialize_vm_start_event e
serialize_fields (thread_start e) = serialize_thread_start_event e
serialize_fields (thread_death e) = serialize_thread_death_event e
serialize_fields (vm_death e) = serialize_vm_death_event e
serialize_fields (class_prepare e) = serialize_class_prepare_event e
serialize_fields (class_unload e) = serialize_class_unload_event e
serialize_fields (exception e) = serialize_exception_event e
serialize_fields (field_access e) = serialize_field_access_event e
serialize_fields (field_modification e) = serialize_field_modification_event e

-- `_EVENT_CLASSES.get(event_kind)` and `deserialize` of the class found; some kinds have none.
unfoldable pub deserialize_fields : JdwpEventKind → ℤ → Read JdwpEvent
deserialize_fields JdwpEventKind.single_step id = do
  e ← deserialize_single_step_event id
  return (single_step e)
deserialize_fields JdwpEventKind.breakpoint id = do
  e ← deserialize_breakpoint_event id
  return (breakpoint e)
deserialize_fields JdwpEventKind.method_entry id = do
  e ← deserialize_method_entry_event id
  return (method_entry e)
deserialize_fields JdwpEventKind.method_exit id = do
  e ← deserialize_method_exit_event id
  return (method_exit e)
deserialize_fields JdwpEventKind.method_exit_with_return_value id = do
  e ← deserialize_method_exit_with_return_value_event id
  return (method_exit_with_return_value e)
deserialize_fields JdwpEventKind.monitor_contended_enter id = do
  e ← deserialize_monitor_contended_enter_event id
  return (monitor_contended_enter e)
deserialize_fields JdwpEventKind.monitor_contended_entered id = do
  e ← deserialize_monitor_contended_entered_event id
  return (monitor_contended_entered e)
deserialize_fields JdwpEventKind.monitor_wait id = do
  e ← deserialize_monitor_wait_event id
  return (monitor_wait e)
deserialize_fields JdwpEventKind.monitor_waited id = do
  e ← deserialize_monitor_waited_event id
  return (monitor_waited e)
deserialize_fields JdwpEventKind.vm_start id = do
  e ← deserialize_vm_start_event id
  return (vm_start e)
deserialize_fields JdwpEventKind.thread_start id = do
  e ← deserialize_thread_start_event id
  return (thread_start e)
deserialize_fields JdwpEventKind.thread_death id = do
  e ← deserialize_thread_death_event id
  return (thread_death e)
deserialize_fields JdwpEventKind.vm_death id = do
  e ← deserialize_vm_death_event id
  return (vm_death e)
deserialize_fields JdwpEventKind.class_prepare id = do
  e ← deserialize_class_prepare_event id
  return (class_prepare e)
deserialize_fields JdwpEventKind.class_unload id = do
  e ← deserialize_class_unload_event id
  return (class_unload e)
deserialize_fields JdwpEventKind.exception id = do
  e ← deserialize_exception_event id
  return (exception e)
deserialize_fields JdwpEventKind.field_access id = do
  e ← deserialize_field_access_event id
  return (field_access e)
deserialize_fields JdwpEventKind.field_modification id = do
  e ← deserialize_field_modification_event id
  return (field_modification e)
deserialize_fields _ id = raise value_error

unfoldable pub serialize_event : JdwpEvent → Write
serialize_event e = do
  write_event_kind (event_kind e)
  write_int (event_request_id e)
  serialize_fields e

unfoldable pub deserialize_event : Read JdwpEvent
deserialize_event = do
  kind ← read_event_kind
  request_id ← read_int
  deserialize_fields kind request_id

abbrev pub HoldsFields : Platform → IdSizesSpec → JdwpEvent → Type 0
HoldsFields p s (single_step e) = IsSingleStepEvent p s e
HoldsFields p s (breakpoint e) = IsBreakpointEvent p s e
HoldsFields p s (method_entry e) = IsMethodEntryEvent p s e
HoldsFields p s (method_exit e) = IsMethodExitEvent p s e
HoldsFields p s (method_exit_with_return_value e) = IsMethodExitWithReturnValueEvent p s e
HoldsFields p s (monitor_contended_enter e) = IsMonitorContendedEnterEvent p s e
HoldsFields p s (monitor_contended_entered e) = IsMonitorContendedEnteredEvent p s e
HoldsFields p s (monitor_wait e) = IsMonitorWaitEvent p s e
HoldsFields p s (monitor_waited e) = IsMonitorWaitedEvent p s e
HoldsFields p s (vm_start e) = IsVmStartEvent p s e
HoldsFields p s (thread_start e) = IsThreadStartEvent p s e
HoldsFields p s (thread_death e) = IsThreadDeathEvent p s e
HoldsFields p s (vm_death e) = Unit {0}
HoldsFields p s (class_prepare e) = IsClassPrepareEvent p s e
HoldsFields p s (class_unload e) = IsClassUnloadEvent p s e
HoldsFields p s (exception e) = IsExceptionEvent p s e
HoldsFields p s (field_access e) = IsFieldAccessEvent p s e
HoldsFields p s (field_modification e) = IsFieldModificationEvent p s e

abbrev pub IsAnyEvent : Platform → IdSizesSpec → JdwpEvent → Type 0
IsAnyEvent p s e = IsInt (event_request_id e) × HoldsFields p s e

module _ {p : Platform} {s : IdSizesSpec} where
  RoundTrip-fields :
      (e : JdwpEvent)
      → HoldsFields p s e
      → RoundTrip p s
          (serialize_fields e)
          (deserialize_fields (event_kind e) (event_request_id e))
          e
  unfolding serialize_fields deserialize_fields event_kind event_request_id
  RoundTrip-fields (single_step e) h = RoundTrip-last single_step (RoundTrip-single_step_event h)
  RoundTrip-fields (breakpoint e) h = RoundTrip-last breakpoint (RoundTrip-breakpoint_event h)
  RoundTrip-fields (method_entry e) h = RoundTrip-last method_entry (RoundTrip-method_entry_event h)
  RoundTrip-fields (method_exit e) h = RoundTrip-last method_exit (RoundTrip-method_exit_event h)
  RoundTrip-fields (method_exit_with_return_value e) h =
      RoundTrip-last method_exit_with_return_value (RoundTrip-method_exit_with_return_value_event h)
  RoundTrip-fields (monitor_contended_enter e) h =
      RoundTrip-last monitor_contended_enter (RoundTrip-monitor_contended_enter_event h)
  RoundTrip-fields (monitor_contended_entered e) h =
      RoundTrip-last monitor_contended_entered (RoundTrip-monitor_contended_entered_event h)
  RoundTrip-fields (monitor_wait e) h = RoundTrip-last monitor_wait (RoundTrip-monitor_wait_event h)
  RoundTrip-fields (monitor_waited e) h =
      RoundTrip-last monitor_waited (RoundTrip-monitor_waited_event h)
  RoundTrip-fields (vm_start e) h = RoundTrip-last vm_start (RoundTrip-vm_start_event h)
  RoundTrip-fields (thread_start e) h = RoundTrip-last thread_start (RoundTrip-thread_start_event h)
  RoundTrip-fields (thread_death e) h = RoundTrip-last thread_death (RoundTrip-thread_death_event h)
  RoundTrip-fields (vm_death e) h = RoundTrip-last vm_death RoundTrip-vm_death_event
  RoundTrip-fields (class_prepare e) h =
      RoundTrip-last class_prepare (RoundTrip-class_prepare_event h)
  RoundTrip-fields (class_unload e) h = RoundTrip-last class_unload (RoundTrip-class_unload_event h)
  RoundTrip-fields (exception e) h = RoundTrip-last exception (RoundTrip-exception_event h)
  RoundTrip-fields (field_access e) h = RoundTrip-last field_access (RoundTrip-field_access_event h)
  RoundTrip-fields (field_modification e) h =
      RoundTrip-last field_modification (RoundTrip-field_modification_event h)

  -- An event is read as the class that its kind names, with its request id.
  pub RoundTrip-event :
      {e : JdwpEvent} → IsAnyEvent p s e → RoundTrip p s (serialize_event e) deserialize_event e
  unfolding serialize_event deserialize_event
  RoundTrip-event {e} h =
      RoundTrip-seq _ RoundTrip-event_kind
        (RoundTrip-seq _ (RoundTrip-int h.0) (RoundTrip-fields e h.1))
