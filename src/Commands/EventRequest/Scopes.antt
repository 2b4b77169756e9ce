-- ===== src/Commands/EventRequest/Scopes.antt =====
-- src/jdwpy/commands/event_request.py: the modifiers of kind 7 and up.
use jdwpy.Prelude.{Bool}
use jdwpy.Prelude.Int.{ℤ}
use jdwpy.Spec.{IdSizesSpec, Location}
use jdwpy.Io.{Platform, Read, Write, return, skip, ◌>>=◌, ◌>>◌}
use jdwpy.Io.Ranges.{IsId, IsInt}
use jdwpy.Io.Reader.{
  read_boolean, read_field_id, read_int, read_location, read_object_id, read_reference_type_id,
}
use jdwpy.Io.Writer.{
  write_boolean, write_field_id, write_int, write_location, write_object_id,
  write_reference_type_id,
}
use jdwpy.Io.Codec.{RoundTrip, RoundTrip-last, RoundTrip-return, RoundTrip-seq}
use jdwpy.Io.Primitives.{
  RoundTrip-boolean, RoundTrip-field_id, RoundTrip-int, RoundTrip-object_id,
  RoundTrip-reference_type_id,
}
use jdwpy.Io.Fields.{IsLocation, RoundTrip-location}

pub record LocationOnlyModifier : Type 0 where
  pub loc : Location

unfoldable pub serialize_location_only_modifier : LocationOnlyModifier → Write
serialize_location_only_modifier c = write_location c.loc

unfoldable pub deserialize_location_only_modifier : Read LocationOnlyModifier
deserialize_location_only_modifier = do loc ← read_location; return (record { loc = loc })

abbrev pub IsLocationOnlyModifier : Platform → IdSizesSpec → LocationOnlyModifier → Type 0
IsLocationOnlyModifier p s c = IsLocation s c.loc

pub RoundTrip-location_only_modifier :
    {p : Platform} {s : IdSizesSpec} {c : LocationOnlyModifier}
    → IsLocationOnlyModifier p s c
    → RoundTrip p s (serialize_location_only_modifier c) deserialize_location_only_modifier c
unfolding serialize_location_only_modifier deserialize_location_only_modifier
RoundTrip-location_only_modifier h = RoundTrip-last _ (RoundTrip-location h)

pub record ExceptionOnlyModifier : Type 0 where
  pub exception_or_null : ℤ
  pub caught : Bool
  pub uncaught : Bool

unfoldable pub serialize_exception_only_modifier : ExceptionOnlyModifier → Write
serialize_exception_only_modifier c = do
  write_reference_type_id c.exception_or_null
  write_boolean c.caught
  write_boolean c.uncaught

unfoldable pub deserialize_exception_only_modifier : Read ExceptionOnlyModifier
deserialize_exception_only_modifier = do
  exception_or_null ← read_reference_type_id
  caught ← read_boolean
  uncaught ← read_boolean
  return (record { exception_or_null = exception_or_null; caught = caught; uncaught = uncaught })

abbrev pub IsExceptionOnlyModifier : Platform → IdSizesSpec → ExceptionOnlyModifier → Type 0
IsExceptionOnlyModifier p s c = IsId s.reference_type_id_struct c.exception_or_null

pub RoundTrip-exception_only_modifier :
    {p : Platform} {s : IdSizesSpec} {c : ExceptionOnlyModifier}
    → IsExceptionOnlyModifier p s c
    → RoundTrip p s (serialize_exception_only_modifier c) deserialize_exception_only_modifier c
unfolding serialize_exception_only_modifier deserialize_exception_only_modifier
RoundTrip-exception_only_modifier h =
    RoundTrip-seq _ (RoundTrip-reference_type_id h)
      (RoundTrip-seq _ RoundTrip-boolean (RoundTrip-last _ RoundTrip-boolean))

pub record FieldOnlyModifier : Type 0 where
  pub declaring : ℤ
  pub field : ℤ

unfoldable pub serialize_field_only_modifier : FieldOnlyModifier → Write
serialize_field_only_modifier c = do write_reference_type_id c.declaring; write_field_id c.field

unfoldable pub deserialize_field_only_modifier : Read FieldOnlyModifier
deserialize_field_only_modifier = do
  declaring ← read_reference_type_id
  field ← read_field_id
  return (record { declaring = declaring; field = field })

abbrev pub IsFieldOnlyModifier : Platform → IdSizesSpec → FieldOnlyModifier → Type 0
IsFieldOnlyModifier p s c =
    IsId s.reference_type_id_struct c.declaring × IsId s.field_id_struct c.field

pub RoundTrip-field_only_modifier :
    {p : Platform} {s : IdSizesSpec} {c : FieldOnlyModifier}
    → IsFieldOnlyModifier p s c
    → RoundTrip p s (serialize_field_only_modifier c) deserialize_field_only_modifier c
unfolding serialize_field_only_modifier deserialize_field_only_modifier
RoundTrip-field_only_modifier h =
    RoundTrip-seq _ (RoundTrip-reference_type_id h.0) (RoundTrip-last _ (RoundTrip-field_id h.1))

pub record StepModifier : Type 0 where
  pub thread : ℤ
  pub size : ℤ
  pub depth : ℤ

unfoldable pub serialize_step_modifier : StepModifier → Write
serialize_step_modifier c = do write_object_id c.thread; write_int c.size; write_int c.depth

unfoldable pub deserialize_step_modifier : Read StepModifier
deserialize_step_modifier = do
  thread ← read_object_id
  size ← read_int
  depth ← read_int
  return (record { thread = thread; size = size; depth = depth })

abbrev pub IsStepModifier : Platform → IdSizesSpec → StepModifier → Type 0
IsStepModifier p s c = IsId s.object_id_struct c.thread × IsInt c.size × IsInt c.depth

pub RoundTrip-step_modifier :
    {p : Platform} {s : IdSizesSpec} {c : StepModifier}
    → IsStepModifier p s c
    → RoundTrip p s (serialize_step_modifier c) deserialize_step_modifier c
unfolding serialize_step_modifier deserialize_step_modifier
RoundTrip-step_modifier h =
    RoundTrip-seq _ (RoundTrip-object_id h.0)
      (RoundTrip-seq _ (RoundTrip-int h.1) (RoundTrip-last _ (RoundTrip-int h.2)))

pub record InstanceOnlyModifier : Type 0 where
  pub instance : ℤ

unfoldable pub serialize_instance_only_modifier : InstanceOnlyModifier → Write
serialize_instance_only_modifier c = write_object_id c.instance

unfoldable pub deserialize_instance_only_modifier : Read InstanceOnlyModifier
deserialize_instance_only_modifier = do
  instance ← read_object_id
  return (record { instance = instance })

abbrev pub IsInstanceOnlyModifier : Platform → IdSizesSpec → InstanceOnlyModifier → Type 0
IsInstanceOnlyModifier p s c = IsId s.object_id_struct c.instance

pub RoundTrip-instance_only_modifier :
    {p : Platform} {s : IdSizesSpec} {c : InstanceOnlyModifier}
    → IsInstanceOnlyModifier p s c
    → RoundTrip p s (serialize_instance_only_modifier c) deserialize_instance_only_modifier c
unfolding serialize_instance_only_modifier deserialize_instance_only_modifier
RoundTrip-instance_only_modifier h = RoundTrip-last _ (RoundTrip-object_id h)

pub data PlatformThreadsOnlyModifier : Type 0 where
  platform_threads_only_modifier : PlatformThreadsOnlyModifier

unfoldable pub serialize_platform_threads_only_modifier : PlatformThreadsOnlyModifier → Write
serialize_platform_threads_only_modifier _ = skip

unfoldable pub deserialize_platform_threads_only_modifier : Read PlatformThreadsOnlyModifier
deserialize_platform_threads_only_modifier = return platform_threads_only_modifier

pub RoundTrip-platform_threads_only_modifier :
    {p : Platform} {s : IdSizesSpec} (c : PlatformThreadsOnlyModifier)
    → RoundTrip p s
        (serialize_platform_threads_only_modifier c)
        deserialize_platform_threads_only_modifier
        c
unfolding serialize_platform_threads_only_modifier deserialize_platform_threads_only_modifier
RoundTrip-platform_threads_only_modifier platform_threads_only_modifier =
    RoundTrip-return platform_threads_only_modifier
