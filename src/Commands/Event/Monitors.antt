-- ===== src/Commands/Event/Monitors.antt =====
-- src/jdwpy/commands/event.py: monitors.
use jdwpy.Prelude.{Bool}
use jdwpy.Prelude.Int.{ℤ}
use jdwpy.Spec.{IdSizesSpec, Location, TaggedObjectId}
use jdwpy.Io.{Platform, Read, Write, return, ◌>>=◌, ◌>>◌}
use jdwpy.Io.Ranges.{IsId, IsLong}
use jdwpy.Io.Reader.{read_boolean, read_location, read_long, read_tagged_object, read_thread_id}
use jdwpy.Io.Writer.{
  write_boolean, write_location, write_long, write_tagged_object, write_thread_id,
}
use jdwpy.Io.Codec.{RoundTrip, RoundTrip-last, RoundTrip-seq}
use jdwpy.Io.Primitives.{RoundTrip-boolean, RoundTrip-long, RoundTrip-object_id}
use jdwpy.Io.Fields.{IsLocation, IsTaggedObject, RoundTrip-location, RoundTrip-tagged_object}

pub record MonitorContendedEnterEvent : Type 0 where
  pub request_id : ℤ
  pub thread : ℤ
  pub object : TaggedObjectId
  pub location : Location

unfoldable pub serialize_monitor_contended_enter_event : MonitorContendedEnterEvent → Write
serialize_monitor_contended_enter_event c = do
  write_thread_id c.thread
  write_tagged_object c.object
  write_location c.location

unfoldable pub deserialize_monitor_contended_enter_event : ℤ → Read MonitorContendedEnterEvent
deserialize_monitor_contended_enter_event request_id = do
  thread ← read_thread_id
  object ← read_tagged_object
  location ← read_location
  return (record { request_id = request_id; thread = thread; object = object; location = location })

abbrev pub IsMonitorContendedEnterEvent :
    Platform → IdSizesSpec → MonitorContendedEnterEvent → Type 0
IsMonitorContendedEnterEvent p s c =
    IsId s.object_id_struct c.thread × IsTaggedObject s c.object × IsLocation s c.location

pub RoundTrip-monitor_contended_enter_event :
    {p : Platform} {s : IdSizesSpec} {c : MonitorContendedEnterEvent}
    → IsMonitorContendedEnterEvent p s c
    → RoundTrip p s
        (serialize_monitor_contended_enter_event c)
        (deserialize_monitor_contended_enter_event c.request_id)
        c
unfolding serialize_monitor_contended_enter_event deserialize_monitor_contended_enter_event
RoundTrip-monitor_contended_enter_event h =
    RoundTrip-seq _ (RoundTrip-object_id h.0)
      (RoundTrip-seq _ (RoundTrip-tagged_object h.1) (RoundTrip-last _ (RoundTrip-location h.2)))

pub record MonitorContendedEnteredEvent : Type 0 where
  pub request_id : ℤ
  pub thread : ℤ
  pub object : TaggedObjectId
  pub location : Location

unfoldable pub serialize_monitor_contended_entered_event : MonitorContendedEnteredEvent → Write
serialize_monitor_contended_entered_event c = do
  write_thread_id c.thread
  write_tagged_object c.object
  write_location c.location

unfoldable pub deserialize_monitor_contended_entered_event : ℤ → Read MonitorContendedEnteredEvent
deserialize_monitor_contended_entered_event request_id = do
  thread ← read_thread_id
  object ← read_tagged_object
  location ← read_location
  return (record { request_id = request_id; thread = thread; object = object; location = location })

abbrev pub IsMonitorContendedEnteredEvent :
    Platform → IdSizesSpec → MonitorContendedEnteredEvent → Type 0
IsMonitorContendedEnteredEvent p s c =
    IsId s.object_id_struct c.thread × IsTaggedObject s c.object × IsLocation s c.location

pub RoundTrip-monitor_contended_entered_event :
    {p : Platform} {s : IdSizesSpec} {c : MonitorContendedEnteredEvent}
    → IsMonitorContendedEnteredEvent p s c
    → RoundTrip p s
        (serialize_monitor_contended_entered_event c)
        (deserialize_monitor_contended_entered_event c.request_id)
        c
unfolding serialize_monitor_contended_entered_event deserialize_monitor_contended_entered_event
RoundTrip-monitor_contended_entered_event h =
    RoundTrip-seq _ (RoundTrip-object_id h.0)
      (RoundTrip-seq _ (RoundTrip-tagged_object h.1) (RoundTrip-last _ (RoundTrip-location h.2)))

pub record MonitorWaitEvent : Type 0 where
  pub request_id : ℤ
  pub thread : ℤ
  pub object : TaggedObjectId
  pub location : Location
  pub timeout : ℤ

unfoldable pub serialize_monitor_wait_event : MonitorWaitEvent → Write
serialize_monitor_wait_event c = do
  write_thread_id c.thread
  write_tagged_object c.object
  write_location c.location
  write_long c.timeout

unfoldable pub deserialize_monitor_wait_event : ℤ → Read MonitorWaitEvent
deserialize_monitor_wait_event request_id = do
  thread ← read_thread_id
  object ← read_tagged_object
  location ← read_location
  timeout ← read_long
  return (record {
    request_id = request_id;
    thread = thread;
    object = object;
    location = location;
    timeout = timeout;
  })

abbrev pub IsMonitorWaitEvent : Platform → IdSizesSpec → MonitorWaitEvent → Type 0
IsMonitorWaitEvent p s c =
    IsId s.object_id_struct c.thread
    × IsTaggedObject s c.object
    × IsLocation s c.location
    × IsLong c.timeout

pub RoundTrip-monitor_wait_event :
    {p : Platform} {s : IdSizesSpec} {c : MonitorWaitEvent}
    → IsMonitorWaitEvent p s c
    → RoundTrip p s (serialize_monitor_wait_event c) (deserialize_monitor_wait_event c.request_id) c
unfolding serialize_monitor_wait_event deserialize_monitor_wait_event
RoundTrip-monitor_wait_event h = RoundTrip-seq _ (RoundTrip-object_id h.0) (
    RoundTrip-seq _ (RoundTrip-tagged_object h.1)
      (RoundTrip-seq _ (RoundTrip-location h.2) (RoundTrip-last _ (RoundTrip-long h.3))))

pub record MonitorWaitedEvent : Type 0 where
  pub request_id : ℤ
  pub thread : ℤ
  pub object : TaggedObjectId
  pub location : Location
  pub timed_out : Bool

unfoldable pub serialize_monitor_waited_event : MonitorWaitedEvent → Write
serialize_monitor_waited_event c = do
  write_thread_id c.thread
  write_tagged_object c.object
  write_location c.location
  write_boolean c.timed_out

unfoldable pub deserialize_monitor_waited_event : ℤ → Read MonitorWaitedEvent
deserialize_monitor_waited_event request_id = do
  thread ← read_thread_id
  object ← read_tagged_object
  location ← read_location
  timed_out ← read_boolean
  return (record {
    request_id = request_id;
    thread = thread;
    object = object;
    location = location;
    timed_out = timed_out;
  })

abbrev pub IsMonitorWaitedEvent : Platform → IdSizesSpec → MonitorWaitedEvent → Type 0
IsMonitorWaitedEvent p s c =
    IsId s.object_id_struct c.thread × IsTaggedObject s c.object × IsLocation s c.location

pub RoundTrip-monitor_waited_event :
    {p : Platform} {s : IdSizesSpec} {c : MonitorWaitedEvent}
    → IsMonitorWaitedEvent p s c
    → RoundTrip p s
        (serialize_monitor_waited_event c)
        (deserialize_monitor_waited_event c.request_id)
        c
unfolding serialize_monitor_waited_event deserialize_monitor_waited_event
RoundTrip-monitor_waited_event h = RoundTrip-seq _ (RoundTrip-object_id h.0) (
    RoundTrip-seq _ (RoundTrip-tagged_object h.1)
      (RoundTrip-seq _ (RoundTrip-location h.2) (RoundTrip-last _ RoundTrip-boolean)))
