-- ===== src/Commands/Event/Machine.antt =====
-- src/jdwpy/commands/event.py: the machine, its threads and classes.
use jdwpy.Prelude.{ℕ}
use jdwpy.Prelude.Int.{ℤ}
use jdwpy.Utf8.{Str}
use jdwpy.Constants.TypeTag.{JdwpTypeTag}
use jdwpy.Spec.{IdSizesSpec}
use jdwpy.Io.{Platform, Read, Write, return, skip, ◌>>=◌, ◌>>◌}
use jdwpy.Io.Ranges.{IsId, IsString}
use jdwpy.Io.Reader.{read_reference_type_id, read_string, read_thread_id, read_type_tag}
use jdwpy.Io.Writer.{write_reference_type_id, write_string, write_thread_id, write_type_tag}
use jdwpy.Io.Codec.{RoundTrip, RoundTrip-last, RoundTrip-return, RoundTrip-seq}
use jdwpy.Io.Primitives.{RoundTrip-object_id, RoundTrip-reference_type_id, RoundTrip-string}
use jdwpy.Io.Fields.{RoundTrip-type_tag}
use jdwpy.Commands.Members.{IsFlag, RoundTrip-class_status, read_class_status, write_flag}

pub record VmStartEvent : Type 0 where
  pub request_id : ℤ
  pub thread : ℤ

unfoldable pub serialize_vm_start_event : VmStartEvent → Write
serialize_vm_start_event c = write_thread_id c.thread

unfoldable pub deserialize_vm_start_event : ℤ → Read VmStartEvent
deserialize_vm_start_event request_id = do
  thread ← read_thread_id
  return (record { request_id = request_id; thread = thread })

abbrev pub IsVmStartEvent : Platform → IdSizesSpec → VmStartEvent → Type 0
IsVmStartEvent p s c = IsId s.object_id_struct c.thread

pub RoundTrip-vm_start_event :
    {p : Platform} {s : IdSizesSpec} {c : VmStartEvent}
    → IsVmStartEvent p s c
    → RoundTrip p s (serialize_vm_start_event c) (deserialize_vm_start_event c.request_id) c
unfolding serialize_vm_start_event deserialize_vm_start_event
RoundTrip-vm_start_event h = RoundTrip-last _ (RoundTrip-object_id h)

pub record ThreadStartEvent : Type 0 where
  pub request_id : ℤ
  pub thread : ℤ

unfoldable pub serialize_thread_start_event : ThreadStartEvent → Write
serialize_thread_start_event c = write_thread_id c.thread

unfoldable pub deserialize_thread_start_event : ℤ → Read ThreadStartEvent
deserialize_thread_start_event request_id = do
  thread ← read_thread_id
  return (record { request_id = request_id; thread = thread })

abbrev pub IsThreadStartEvent : Platform → IdSizesSpec → ThreadStartEvent → Type 0
IsThreadStartEvent p s c = IsId s.object_id_struct c.thread

pub RoundTrip-thread_start_event :
    {p : Platform} {s : IdSizesSpec} {c : ThreadStartEvent}
    → IsThreadStartEvent p s c
    → RoundTrip p s (serialize_thread_start_event c) (deserialize_thread_start_event c.request_id) c
unfolding serialize_thread_start_event deserialize_thread_start_event
RoundTrip-thread_start_event h = RoundTrip-last _ (RoundTrip-object_id h)

pub record ThreadDeathEvent : Type 0 where
  pub request_id : ℤ
  pub thread : ℤ

unfoldable pub serialize_thread_death_event : ThreadDeathEvent → Write
serialize_thread_death_event c = write_thread_id c.thread

unfoldable pub deserialize_thread_death_event : ℤ → Read ThreadDeathEvent
deserialize_thread_death_event request_id = do
  thread ← read_thread_id
  return (record { request_id = request_id; thread = thread })

abbrev pub IsThreadDeathEvent : Platform → IdSizesSpec → ThreadDeathEvent → Type 0
IsThreadDeathEvent p s c = IsId s.object_id_struct c.thread

pub RoundTrip-thread_death_event :
    {p : Platform} {s : IdSizesSpec} {c : ThreadDeathEvent}
    → IsThreadDeathEvent p s c
    → RoundTrip p s (serialize_thread_death_event c) (deserialize_thread_death_event c.request_id) c
unfolding serialize_thread_death_event deserialize_thread_death_event
RoundTrip-thread_death_event h = RoundTrip-last _ (RoundTrip-object_id h)

pub record VmDeathEvent : Type 0 where
  pub request_id : ℤ

unfoldable pub serialize_vm_death_event : VmDeathEvent → Write
serialize_vm_death_event _ = skip

unfoldable pub deserialize_vm_death_event : ℤ → Read VmDeathEvent
deserialize_vm_death_event request_id = return (record { request_id = request_id })

pub RoundTrip-vm_death_event :
    {p : Platform} {s : IdSizesSpec} {c : VmDeathEvent}
    → RoundTrip p s (serialize_vm_death_event c) (deserialize_vm_death_event c.request_id) c
unfolding serialize_vm_death_event deserialize_vm_death_event
RoundTrip-vm_death_event {c = c} = RoundTrip-return c

pub record ClassPrepareEvent : Type 0 where
  pub request_id : ℤ
  pub thread : ℤ
  pub ref_type_tag : JdwpTypeTag
  pub type_id : ℤ
  pub signature : Str
  pub status : ℕ

unfoldable pub serialize_class_prepare_event : ClassPrepareEvent → Write
serialize_class_prepare_event c = do
  write_thread_id c.thread
  write_type_tag c.ref_type_tag
  write_reference_type_id c.type_id
  write_string c.signature
  write_flag c.status

unfoldable pub deserialize_class_prepare_event : ℤ → Read ClassPrepareEvent
deserialize_class_prepare_event request_id = do
  thread ← read_thread_id
  ref_type_tag ← read_type_tag
  type_id ← read_reference_type_id
  signature ← read_string
  status ← read_class_status
  return (record {
    request_id = request_id;
    thread = thread;
    ref_type_tag = ref_type_tag;
    type_id = type_id;
    signature = signature;
    status = status;
  })

abbrev pub IsClassPrepareEvent : Platform → IdSizesSpec → ClassPrepareEvent → Type 0
IsClassPrepareEvent p s c =
    IsId s.object_id_struct c.thread
    × IsId s.reference_type_id_struct c.type_id
    × IsString c.signature
    × IsFlag c.status

pub RoundTrip-class_prepare_event :
    {p : Platform} {s : IdSizesSpec} {c : ClassPrepareEvent}
    → IsClassPrepareEvent p s c
    → RoundTrip p s
        (serialize_class_prepare_event c)
        (deserialize_class_prepare_event c.request_id)
        c
unfolding serialize_class_prepare_event deserialize_class_prepare_event
RoundTrip-class_prepare_event h = RoundTrip-seq _ (RoundTrip-object_id h.0) (
    RoundTrip-seq _ RoundTrip-type_tag (
      RoundTrip-seq _ (RoundTrip-reference_type_id h.1)
        (RoundTrip-seq _ (RoundTrip-string h.2) (RoundTrip-last _ (RoundTrip-class_status h.3)))))

pub record ClassUnloadEvent : Type 0 where
  pub request_id : ℤ
  pub signature : Str

unfoldable pub serialize_class_unload_event : ClassUnloadEvent → Write
serialize_class_unload_event c = write_string c.signature

unfoldable pub deserialize_class_unload_event : ℤ → Read ClassUnloadEvent
deserialize_class_unload_event request_id = do
  signature ← read_string
  return (record { request_id = request_id; signature = signature })

abbrev pub IsClassUnloadEvent : Platform → IdSizesSpec → ClassUnloadEvent → Type 0
IsClassUnloadEvent p s c = IsString c.signature

pub RoundTrip-class_unload_event :
    {p : Platform} {s : IdSizesSpec} {c : ClassUnloadEvent}
    → IsClassUnloadEvent p s c
    → RoundTrip p s (serialize_class_unload_event c) (deserialize_class_unload_event c.request_id) c
unfolding serialize_class_unload_event deserialize_class_unload_event
RoundTrip-class_unload_event h = RoundTrip-last _ (RoundTrip-string h)
