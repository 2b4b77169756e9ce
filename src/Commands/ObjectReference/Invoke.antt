-- ===== src/Commands/ObjectReference/Invoke.antt =====
-- src/jdwpy/commands/object_reference.py: MonitorInfo, InvokeMethod, ReferringObjects.
use jdwpy.Prelude.{All, List, length, ℕ}
use jdwpy.Prelude.Int.{pos, ℤ}
use jdwpy.Spec.{IdSizesSpec, JdwpValue, TaggedObjectId}
use jdwpy.Io.{Platform, Read, Write, for_each, read_list, return, ◌>>=◌, ◌>>◌}
use jdwpy.Io.Ranges.{IsId, IsInt}
use jdwpy.Io.Reader.{
  read_class_id, read_int, read_method_id, read_object_id, read_tagged_object, read_thread_id,
}
use jdwpy.Io.Writer.{
  write_class_id, write_int, write_method_id, write_object_id, write_tagged_object, write_thread_id,
}
use jdwpy.Io.Values.{read_value, write_value}
use jdwpy.Io.Codec.{RoundTrip, RoundTrip-All, RoundTrip-last, RoundTrip-seq}
use jdwpy.Io.Primitives.{
  RoundTrip-int, RoundTrip-method_id, RoundTrip-object_id, RoundTrip-reference_type_id,
}
use jdwpy.Io.Fields.{IsTaggedObject, IsValue, RoundTrip-tagged_object, RoundTrip-value}
use jdwpy.Commands.Members.{IsFlag, RoundTrip-invoke_options, read_invoke_options, write_flag}

pub record MonitorInfoResponse : Type 0 where
  pub owner : ℤ
  pub entry_count : ℤ
  pub waiters : List ℤ

unfoldable pub serialize_monitor_info_response : MonitorInfoResponse → Write
serialize_monitor_info_response c = do
  write_thread_id c.owner
  write_int c.entry_count
  write_int (pos (length c.waiters))
  for_each c.waiters write_thread_id

unfoldable pub deserialize_monitor_info_response : Read MonitorInfoResponse
deserialize_monitor_info_response = do
  owner ← read_thread_id
  entry_count ← read_int
  num ← read_int
  waiters ← read_list num read_thread_id
  return (record { owner = owner; entry_count = entry_count; waiters = waiters })

abbrev pub IsMonitorInfoResponse : Platform → IdSizesSpec → MonitorInfoResponse → Type 0
IsMonitorInfoResponse p s c =
    IsId s.object_id_struct c.owner
    × IsInt c.entry_count
    × IsInt (pos (length c.waiters))
    × All (λ x. IsId s.object_id_struct x) c.waiters

pub RoundTrip-monitor_info_response :
    {p : Platform} {s : IdSizesSpec} {c : MonitorInfoResponse}
    → IsMonitorInfoResponse p s c
    → RoundTrip p s (serialize_monitor_info_response c) deserialize_monitor_info_response c
unfolding serialize_monitor_info_response deserialize_monitor_info_response
RoundTrip-monitor_info_response {s = s} {c = c} h = RoundTrip-seq _ (RoundTrip-object_id h.0) (
    RoundTrip-seq _ (RoundTrip-int h.1) (
      RoundTrip-seq _ (RoundTrip-int h.2) (
        RoundTrip-last _ (
          RoundTrip-All write_thread_id read_thread_id (λ x. IsId s.object_id_struct x) c.waiters
            (λ x h. RoundTrip-object_id h) h.3))))

pub record MonitorInfoCommand : Type 0 where
  pub object : ℤ

unfoldable pub serialize_monitor_info_command : MonitorInfoCommand → Write
serialize_monitor_info_command c = write_object_id c.object

unfoldable pub deserialize_monitor_info_command : Read MonitorInfoCommand
deserialize_monitor_info_command = do object ← read_object_id; return (record { object = object })

abbrev pub IsMonitorInfoCommand : Platform → IdSizesSpec → MonitorInfoCommand → Type 0
IsMonitorInfoCommand p s c = IsId s.object_id_struct c.object

pub RoundTrip-monitor_info_command :
    {p : Platform} {s : IdSizesSpec} {c : MonitorInfoCommand}
    → IsMonitorInfoCommand p s c
    → RoundTrip p s (serialize_monitor_info_command c) deserialize_monitor_info_command c
unfolding serialize_monitor_info_command deserialize_monitor_info_command
RoundTrip-monitor_info_command h = RoundTrip-last _ (RoundTrip-object_id h)

pub record InvokeMethodResponse : Type 0 where
  pub return_value : JdwpValue
  pub exception : TaggedObjectId

unfoldable pub serialize_invoke_method_response : InvokeMethodResponse → Write
serialize_invoke_method_response c = do write_value c.return_value; write_tagged_object c.exception

unfoldable pub deserialize_invoke_method_response : Read InvokeMethodResponse
deserialize_invoke_method_response = do
  return_value ← read_value
  exception ← read_tagged_object
  return (record { return_value = return_value; exception = exception })

abbrev pub IsInvokeMethodResponse : Platform → IdSizesSpec → InvokeMethodResponse → Type 0
IsInvokeMethodResponse p s c = IsValue p s c.return_value × IsTaggedObject s c.exception

pub RoundTrip-invoke_method_response :
    {p : Platform} {s : IdSizesSpec} {c : InvokeMethodResponse}
    → IsInvokeMethodResponse p s c
    → RoundTrip p s (serialize_invoke_method_response c) deserialize_invoke_method_response c
unfolding serialize_invoke_method_response deserialize_invoke_method_response
RoundTrip-invoke_method_response h =
    RoundTrip-seq _ (RoundTrip-value h.0) (RoundTrip-last _ (RoundTrip-tagged_object h.1))

pub record InvokeMethodCommand : Type 0 where
  pub object : ℤ
  pub thread : ℤ
  pub clazz : ℤ
  pub method : ℤ
  pub arguments : List JdwpValue
  pub options : ℕ

unfoldable pub serialize_invoke_method_command : InvokeMethodCommand → Write
serialize_invoke_method_command c = do
  write_object_id c.object
  write_thread_id c.thread
  write_class_id c.clazz
  write_method_id c.method
  write_int (pos (length c.arguments))
  for_each c.arguments write_value
  write_flag c.options

unfoldable pub deserialize_invoke_method_command : Read InvokeMethodCommand
deserialize_invoke_method_command = do
  object ← read_object_id
  thread ← read_thread_id
  clazz ← read_class_id
  method ← read_method_id
  num ← read_int
  arguments ← read_list num read_value
  options ← read_invoke_options
  return (record {
    object = object;
    thread = thread;
    clazz = clazz;
    method = method;
    arguments = arguments;
    options = options;
  })

abbrev pub IsInvokeMethodCommand : Platform → IdSizesSpec → InvokeMethodCommand → Type 0
IsInvokeMethodCommand p s c =
    IsId s.object_id_struct c.object
    × IsId s.object_id_struct c.thread
    × IsId s.reference_type_id_struct c.clazz
    × IsId s.method_id_struct c.method
    × IsInt (pos (length c.arguments))
    × All (λ x. IsValue p s x) c.arguments
    × IsFlag c.options

pub RoundTrip-invoke_method_command :
    {p : Platform} {s : IdSizesSpec} {c : InvokeMethodCommand}
    → IsInvokeMethodCommand p s c
    → RoundTrip p s (serialize_invoke_method_command c) deserialize_invoke_method_command c
unfolding serialize_invoke_method_command deserialize_invoke_method_command
RoundTrip-invoke_method_command {p = p} {s = s} {c = c} h =
    RoundTrip-seq _ (RoundTrip-object_id h.0) (
      RoundTrip-seq _ (RoundTrip-object_id h.1) (
        RoundTrip-seq _ (RoundTrip-reference_type_id h.2) (
          RoundTrip-seq _ (RoundTrip-method_id h.3) (
            RoundTrip-seq _ (RoundTrip-int h.4) (
              RoundTrip-seq _
                (RoundTrip-All write_value read_value (λ x. IsValue p s x) c.arguments
                  (λ x h. RoundTrip-value h) h.5)
                (RoundTrip-last _ (RoundTrip-invoke_options h.6)))))))

pub record ReferringObjectsResponse : Type 0 where
  pub referring_objects : List TaggedObjectId

unfoldable pub serialize_referring_objects_response : ReferringObjectsResponse → Write
serialize_referring_objects_response c = do
  write_int (pos (length c.referring_objects))
  for_each c.referring_objects write_tagged_object

unfoldable pub deserialize_referring_objects_response : Read ReferringObjectsResponse
deserialize_referring_objects_response = do
  num ← read_int
  referring_objects ← read_list num read_tagged_object
  return (record { referring_objects = referring_objects })

abbrev pub IsReferringObjectsResponse : Platform → IdSizesSpec → ReferringObjectsResponse → Type 0
IsReferringObjectsResponse p s c =
    IsInt (pos (length c.referring_objects)) × All (λ x. IsTaggedObject s x) c.referring_objects

pub RoundTrip-referring_objects_response :
    {p : Platform} {s : IdSizesSpec} {c : ReferringObjectsResponse}
    → IsReferringObjectsResponse p s c
    → RoundTrip p s
        (serialize_referring_objects_response c)
        deserialize_referring_objects_response
        c
unfolding serialize_referring_objects_response deserialize_referring_objects_response
RoundTrip-referring_objects_response {s = s} {c = c} h = RoundTrip-seq _ (RoundTrip-int h.0) (
    RoundTrip-last _ (
      RoundTrip-All write_tagged_object read_tagged_object (λ x. IsTaggedObject s x)
        c.referring_objects (λ x h. RoundTrip-tagged_object h) h.1))

pub record ReferringObjectsCommand : Type 0 where
  pub object : ℤ
  pub max_referrers : ℤ

unfoldable pub serialize_referring_objects_command : ReferringObjectsCommand → Write
serialize_referring_objects_command c = do write_object_id c.object; write_int c.max_referrers

unfoldable pub deserialize_referring_objects_command : Read ReferringObjectsCommand
deserialize_referring_objects_command = do
  object ← read_object_id
  max_referrers ← read_int
  return (record { object = object; max_referrers = max_referrers })

abbrev pub IsReferringObjectsCommand : Platform → IdSizesSpec → ReferringObjectsCommand → Type 0
IsReferringObjectsCommand p s c = IsId s.object_id_struct c.object × IsInt c.max_referrers

pub RoundTrip-referring_objects_command :
    {p : Platform} {s : IdSizesSpec} {c : ReferringObjectsCommand}
    → IsReferringObjectsCommand p s c
    → RoundTrip p s (serialize_referring_objects_command c) deserialize_referring_objects_command c
unfolding serialize_referring_objects_command deserialize_referring_objects_command
RoundTrip-referring_objects_command h =
    RoundTrip-seq _ (RoundTrip-object_id h.0) (RoundTrip-last _ (RoundTrip-int h.1))
