-- ===== src/Commands/Event/Fields.antt =====
-- src/jdwpy/commands/event.py: exceptions and fields.
use jdwpy.Prelude.Int.{ℤ}
use jdwpy.Constants.TypeTag.{JdwpTypeTag}
use jdwpy.Spec.{IdSizesSpec, JdwpValue, Location, TaggedObjectId}
use jdwpy.Io.{Platform, Read, Write, return, ◌>>=◌, ◌>>◌}
use jdwpy.Io.Ranges.{IsId}
use jdwpy.Io.Reader.{
  read_field_id, read_location, read_reference_type_id, read_tagged_object, read_thread_id,
  read_type_tag,
}
use jdwpy.Io.Writer.{
  write_field_id, write_location, write_reference_type_id, write_tagged_object, write_thread_id,
  write_type_tag,
}
use jdwpy.Io.Values.{read_value, write_value}
use jdwpy.Io.Codec.{RoundTrip, RoundTrip-last, RoundTrip-seq}
use jdwpy.Io.Primitives.{RoundTrip-field_id, RoundTrip-object_id, RoundTrip-reference_type_id}
use jdwpy.Io.Fields.{
  IsLocation, IsTaggedObject, IsValue, RoundTrip-location, RoundTrip-tagged_object,
  RoundTrip-type_tag, RoundTrip-value,
}

pub record ExceptionEvent : Type 0 where
  pub request_id : ℤ
  pub thread : ℤ
  pub location : Location
  pub exception : TaggedObjectId
  pub catch_location : Location

unfoldable pub serialize_exception_event : ExceptionEvent → Write
serialize_exception_event c = do
  write_thread_id c.thread
  write_location c.location
  write_tagged_object c.exception
  write_location c.catch_location

unfoldable pub deserialize_exception_event : ℤ → Read ExceptionEvent
deserialize_exception_event request_id = do
  thread ← read_thread_id
  location ← read_location
  exception ← read_tagged_object
  catch_location ← read_location
  return (record {
    request_id = request_id;
    thread = thread;
    location = location;
    exception = exception;
    catch_location = catch_location;
  })

abbrev pub IsExceptionEvent : Platform → IdSizesSpec → ExceptionEvent → Type 0
IsExceptionEvent p s c =
    IsId s.object_id_struct c.thread
    × IsLocation s c.location
    × IsTaggedObject s c.exception
    × IsLocation s c.catch_location

pub RoundTrip-exception_event :
    {p : Platform} {s : IdSizesSpec} {c : ExceptionEvent}
    → IsExceptionEvent p s c
    → RoundTrip p s (serialize_exception_event c) (deserialize_exception_event c.request_id) c
unfolding serialize_exception_event deserialize_exception_event
RoundTrip-exception_event h = RoundTrip-seq _ (RoundTrip-object_id h.0) (
    RoundTrip-seq _ (RoundTrip-location h.1)
      (RoundTrip-seq _ (RoundTrip-tagged_object h.2) (RoundTrip-last _ (RoundTrip-location h.3))))

pub record FieldAccessEvent : Type 0 where
  pub request_id : ℤ
  pub thread : ℤ
  pub location : Location
  pub ref_type_tag : JdwpTypeTag
  pub type_id : ℤ
  pub field_id : ℤ
  pub object : TaggedObjectId

unfoldable pub serialize_field_access_event : FieldAccessEvent → Write
serialize_field_access_event c = do
  write_thread_id c.thread
  write_location c.location
  write_type_tag c.ref_type_tag
  write_reference_type_id c.type_id
  write_field_id c.field_id
  write_tagged_object c.object

unfoldable pub deserialize_field_access_event : ℤ → Read FieldAccessEvent
deserialize_field_access_event request_id = do
  thread ← read_thread_id
  location ← read_location
  ref_type_tag ← read_type_tag
  type_id ← read_reference_type_id
  field_id ← read_field_id
  object ← read_tagged_object
  return (record {
    request_id = request_id;
    thread = thread;
    location = location;
    ref_type_tag = ref_type_tag;
    type_id = type_id;
    field_id = field_id;
    object = object;
  })

abbrev pub IsFieldAccessEvent : Platform → IdSizesSpec → FieldAccessEvent → Type 0
IsFieldAccessEvent p s c =
    IsId s.object_id_struct c.thread
    × IsLocation s c.location
    × IsId s.reference_type_id_struct c.type_id
    × IsId s.field_id_struct c.field_id
    × IsTaggedObject s c.object

pub RoundTrip-field_access_event :
    {p : Platform} {s : IdSizesSpec} {c : FieldAccessEvent}
    → IsFieldAccessEvent p s c
    → RoundTrip p s (serialize_field_access_event c) (deserialize_field_access_event c.request_id) c
unfolding serialize_field_access_event deserialize_field_access_event
RoundTrip-field_access_event h = RoundTrip-seq _ (RoundTrip-object_id h.0) (
    RoundTrip-seq _ (RoundTrip-location h.1) (
      RoundTrip-seq _ RoundTrip-type_tag (
        RoundTrip-seq _ (RoundTrip-reference_type_id h.2) (
          RoundTrip-seq _ (RoundTrip-field_id h.3)
            (RoundTrip-last _ (RoundTrip-tagged_object h.4))))))

pub record FieldModificationEvent : Type 0 where
  pub request_id : ℤ
  pub thread : ℤ
  pub location : Location
  pub ref_type_tag : JdwpTypeTag
  pub type_id : ℤ
  pub field_id : ℤ
  pub object : TaggedObjectId
  pub value_to_be : JdwpValue

unfoldable pub serialize_field_modification_event : FieldModificationEvent → Write
serialize_field_modification_event c = do
  write_thread_id c.thread
  write_location c.location
  write_type_tag c.ref_type_tag
  write_reference_type_id c.type_id
  write_field_id c.field_id
  write_tagged_object c.object
  write_value c.value_to_be

unfoldable pub deserialize_field_modification_event : ℤ → Read FieldModificationEvent
deserialize_field_modification_event request_id = do
  thread ← read_thread_id
  location ← read_location
  ref_type_tag ← read_type_tag
  type_id ← read_reference_type_id
  field_id ← read_field_id
  object ← read_tagged_object
  value_to_be ← read_value
  return (record {
    request_id = request_id;
    thread = thread;
    location = location;
    ref_type_tag = ref_type_tag;
    type_id = type_id;
    field_id = field_id;
    object = object;
    value_to_be = value_to_be;
  })

abbrev pub IsFieldModificationEvent : Platform → IdSizesSpec → FieldModificationEvent → Type 0
IsFieldModificationEvent p s c =
    IsId s.object_id_struct c.thread
    × IsLocation s c.location
    × IsId s.reference_type_id_struct c.type_id
    × IsId s.field_id_struct c.field_id
    × IsTaggedObject s c.object
    × IsValue p s c.value_to_be

pub RoundTrip-field_modification_event :
    {p : Platform} {s : IdSizesSpec} {c : FieldModificationEvent}
    → IsFieldModificationEvent p s c
    → RoundTrip p s
        (serialize_field_modification_event c)
        (deserialize_field_modification_event c.request_id)
        c
unfolding serialize_field_modification_event deserialize_field_modification_event
RoundTrip-field_modification_event h = RoundTrip-seq _ (RoundTrip-object_id h.0) (
    RoundTrip-seq _ (RoundTrip-location h.1) (
      RoundTrip-seq _ RoundTrip-type_tag (
        RoundTrip-seq _ (RoundTrip-reference_type_id h.2) (
          RoundTrip-seq _ (RoundTrip-field_id h.3) (
            RoundTrip-seq _ (RoundTrip-tagged_object h.4)
              (RoundTrip-last _ (RoundTrip-value h.5)))))))
