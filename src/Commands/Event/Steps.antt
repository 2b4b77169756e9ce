-- ===== src/Commands/Event/Steps.antt =====
-- src/jdwpy/commands/event.py: steps, breakpoints, method entries and exits.
use jdwpy.Prelude.Int.{ℤ}
use jdwpy.Spec.{IdSizesSpec, JdwpValue, Location}
use jdwpy.Io.{Platform, Read, Write, return, ◌>>=◌, ◌>>◌}
use jdwpy.Io.Ranges.{IsId}
use jdwpy.Io.Reader.{read_location, read_thread_id}
use jdwpy.Io.Writer.{write_location, write_thread_id}
use jdwpy.Io.Values.{read_value, write_value}
use jdwpy.Io.Codec.{RoundTrip, RoundTrip-last, RoundTrip-seq}
use jdwpy.Io.Primitives.{RoundTrip-object_id}
use jdwpy.Io.Fields.{IsLocation, IsValue, RoundTrip-location, RoundTrip-value}

pub record SingleStepEvent : Type 0 where
  pub request_id : ℤ
  pub thread : ℤ
  pub location : Location

unfoldable pub serialize_single_step_event : SingleStepEvent → Write
serialize_single_step_event c = do write_thread_id c.thread; write_location c.location

unfoldable pub deserialize_single_step_event : ℤ → Read SingleStepEvent
deserialize_single_step_event request_id = do
  thread ← read_thread_id
  location ← read_location
  return (record { request_id = request_id; thread = thread; location = location })

abbrev pub IsSingleStepEvent : Platform → IdSizesSpec → SingleStepEvent → Type 0
IsSingleStepEvent p s c = IsId s.object_id_struct c.thread × IsLocation s c.location

pub RoundTrip-single_step_event :
    {p : Platform} {s : IdSizesSpec} {c : SingleStepEvent}
    → IsSingleStepEvent p s c
    → RoundTrip p s (serialize_single_step_event c) (deserialize_single_step_event c.request_id) c
unfolding serialize_single_step_event deserialize_single_step_event
RoundTrip-single_step_event h =
    RoundTrip-seq _ (RoundTrip-object_id h.0) (RoundTrip-last _ (RoundTrip-location h.1))

pub record BreakpointEvent : Type 0 where
  pub request_id : ℤ
  pub thread : ℤ
  pub location : Location

unfoldable pub serialize_breakpoint_event : BreakpointEvent → Write
serialize_breakpoint_event c = do write_thread_id c.thread; write_location c.location

unfoldable pub deserialize_breakpoint_event : ℤ → Read BreakpointEvent
deserialize_breakpoint_event request_id = do
  thread ← read_thread_id
  location ← read_location
  return (record { request_id = request_id; thread = thread; location = location })

abbrev pub IsBreakpointEvent : Platform → IdSizesSpec → BreakpointEvent → Type 0
IsBreakpointEvent p s c = IsId s.object_id_struct c.thread × IsLocation s c.location

pub RoundTrip-breakpoint_event :
    {p : Platform} {s : IdSizesSpec} {c : BreakpointEvent}
    → IsBreakpointEvent p s c
    → RoundTrip p s (serialize_breakpoint_event c) (deserialize_breakpoint_event c.request_id) c
unfolding serialize_breakpoint_event deserialize_breakpoint_event
RoundTrip-breakpoint_event h =
    RoundTrip-seq _ (RoundTrip-object_id h.0) (RoundTrip-last _ (RoundTrip-location h.1))

pub record MethodEntryEvent : Type 0 where
  pub request_id : ℤ
  pub thread : ℤ
  pub location : Location

unfoldable pub serialize_method_entry_event : MethodEntryEvent → Write
serialize_method_entry_event c = do write_thread_id c.thread; write_location c.location

unfoldable pub deserialize_method_entry_event : ℤ → Read MethodEntryEvent
deserialize_method_entry_event request_id = do
  thread ← read_thread_id
  location ← read_location
  return (record { request_id = request_id; thread = thread; location = location })

abbrev pub IsMethodEntryEvent : Platform → IdSizesSpec → MethodEntryEvent → Type 0
IsMethodEntryEvent p s c = IsId s.object_id_struct c.thread × IsLocation s c.location

pub RoundTrip-method_entry_event :
    {p : Platform} {s : IdSizesSpec} {c : MethodEntryEvent}
    → IsMethodEntryEvent p s c
    → RoundTrip p s (serialize_method_entry_event c) (deserialize_method_entry_event c.request_id) c
unfolding serialize_method_entry_event deserialize_method_entry_event
RoundTrip-method_entry_event h =
    RoundTrip-seq _ (RoundTrip-object_id h.0) (RoundTrip-last _ (RoundTrip-location h.1))

pub record MethodExitEvent : Type 0 where
  pub request_id : ℤ
  pub thread : ℤ
  pub location : Location

unfoldable pub serialize_method_exit_event : MethodExitEvent → Write
serialize_method_exit_event c = do write_thread_id c.thread; write_location c.location

unfoldable pub deserialize_method_exit_event : ℤ → Read MethodExitEvent
deserialize_method_exit_event request_id = do
  thread ← read_thread_id
  location ← read_location
  return (record { request_id = request_id; thread = thread; location = location })

abbrev pub IsMethodExitEvent : Platform → IdSizesSpec → MethodExitEvent → Type 0
IsMethodExitEvent p s c = IsId s.object_id_struct c.thread × IsLocation s c.location

pub RoundTrip-method_exit_event :
    {p : Platform} {s : IdSizesSpec} {c : MethodExitEvent}
    → IsMethodExitEvent p s c
    → RoundTrip p s (serialize_method_exit_event c) (deserialize_method_exit_event c.request_id) c
unfolding serialize_method_exit_event deserialize_method_exit_event
RoundTrip-method_exit_event h =
    RoundTrip-seq _ (RoundTrip-object_id h.0) (RoundTrip-last _ (RoundTrip-location h.1))

pub record MethodExitWithReturnValueEvent : Type 0 where
  pub request_id : ℤ
  pub thread : ℤ
  pub location : Location
  pub value : JdwpValue

unfoldable pub serialize_method_exit_with_return_value_event :
    MethodExitWithReturnValueEvent → Write
serialize_method_exit_with_return_value_event c = do
  write_thread_id c.thread
  write_location c.location
  write_value c.value

unfoldable pub deserialize_method_exit_with_return_value_event :
    ℤ → Read MethodExitWithReturnValueEvent
deserialize_method_exit_with_return_value_event request_id = do
  thread ← read_thread_id
  location ← read_location
  value ← read_value
  return (record { request_id = request_id; thread = thread; location = location; value = value })

abbrev pub IsMethodExitWithReturnValueEvent :
    Platform → IdSizesSpec → MethodExitWithReturnValueEvent → Type 0
IsMethodExitWithReturnValueEvent p s c =
    IsId s.object_id_struct c.thread × IsLocation s c.location × IsValue p s c.value

pub RoundTrip-method_exit_with_return_value_event :
    {p : Platform} {s : IdSizesSpec} {c : MethodExitWithReturnValueEvent}
    → IsMethodExitWithReturnValueEvent p s c
    → RoundTrip p s
        (serialize_method_exit_with_return_value_event c)
        (deserialize_method_exit_with_return_value_event c.request_id)
        c
unfolding serialize_method_exit_with_return_value_event
    deserialize_method_exit_with_return_value_event
RoundTrip-method_exit_with_return_value_event h =
    RoundTrip-seq _ (RoundTrip-object_id h.0)
      (RoundTrip-seq _ (RoundTrip-location h.1) (RoundTrip-last _ (RoundTrip-value h.2)))
