-- ===== src/Commands/EventRequest/Modifiers.antt =====
-- The sum of the modifiers of src/jdwpy/commands/event_request.py, and their dispatch by MOD_KIND.
use jdwpy.Prelude.{arith, if◌then◌else◌, ℕ, ◌<◌}
use jdwpy.Prelude.Int.{pos, ℤ, ◌==ℤ◌}
use jdwpy.Struct.{value_error}
use jdwpy.Spec.{IdSizesSpec}
use jdwpy.Io.{Platform, Read, Write, raise, return, ◌>>=◌, ◌>>◌}
use jdwpy.Io.Reader.{read_byte}
use jdwpy.Io.Writer.{write_byte}
use jdwpy.Io.Codec.{RoundTrip, RoundTrip-last, RoundTrip-seq}
use jdwpy.Io.Primitives.{RoundTrip-byte}
use jdwpy.Commands.EventRequest.Filters.{
  ClassExcludeModifier, ClassMatchModifier, ClassOnlyModifier, ConditionalModifier, CountModifier,
  IsClassExcludeModifier, IsClassMatchModifier, IsClassOnlyModifier, IsConditionalModifier,
  IsCountModifier, IsThreadOnlyModifier, RoundTrip-class_exclude_modifier,
  RoundTrip-class_match_modifier, RoundTrip-class_only_modifier, RoundTrip-conditional_modifier,
  RoundTrip-count_modifier, RoundTrip-thread_only_modifier, ThreadOnlyModifier,
  deserialize_class_exclude_modifier, deserialize_class_match_modifier,
  deserialize_class_only_modifier, deserialize_conditional_modifier, deserialize_count_modifier,
  deserialize_thread_only_modifier, serialize_class_exclude_modifier,
  serialize_class_match_modifier, serialize_class_only_modifier, serialize_conditional_modifier,
  serialize_count_modifier, serialize_thread_only_modifier,
}
use jdwpy.Commands.EventRequest.Scopes.{
  ExceptionOnlyModifier, FieldOnlyModifier, InstanceOnlyModifier, IsExceptionOnlyModifier,
  IsFieldOnlyModifier, IsInstanceOnlyModifier, IsLocationOnlyModifier, IsStepModifier,
  LocationOnlyModifier, PlatformThreadsOnlyModifier, RoundTrip-exception_only_modifier,
  RoundTrip-field_only_modifier, RoundTrip-instance_only_modifier, RoundTrip-location_only_modifier,
  RoundTrip-platform_threads_only_modifier, RoundTrip-step_modifier, StepModifier,
  deserialize_exception_only_modifier, deserialize_field_only_modifier,
  deserialize_instance_only_modifier, deserialize_location_only_modifier,
  deserialize_platform_threads_only_modifier, deserialize_step_modifier,
  serialize_exception_only_modifier, serialize_field_only_modifier,
  serialize_instance_only_modifier, serialize_location_only_modifier,
  serialize_platform_threads_only_modifier, serialize_step_modifier,
}

pub data EventModifier : Type 0 where
  count : CountModifier → EventModifier
  conditional : ConditionalModifier → EventModifier
  thread_only : ThreadOnlyModifier → EventModifier
  class_only : ClassOnlyModifier → EventModifier
  class_match : ClassMatchModifier → EventModifier
  class_exclude : ClassExcludeModifier → EventModifier
  location_only : LocationOnlyModifier → EventModifier
  exception_only : ExceptionOnlyModifier → EventModifier
  field_only : FieldOnlyModifier → EventModifier
  step : StepModifier → EventModifier
  instance_only : InstanceOnlyModifier → EventModifier
  platform_threads_only : PlatformThreadsOnlyModifier → EventModifier

-- `modifier.MOD_KIND`
unfoldable pub mod_kind : EventModifier → ℕ
mod_kind (count _) = 1
mod_kind (conditional _) = 2
mod_kind (thread_only _) = 3
mod_kind (class_only _) = 4
mod_kind (class_match _) = 5
mod_kind (class_exclude _) = 6
mod_kind (location_only _) = 7
mod_kind (exception_only _) = 8
mod_kind (field_only _) = 9
mod_kind (step _) = 10
mod_kind (instance_only _) = 11
mod_kind (platform_threads_only _) = 14

-- `modifier.serialize(writer)`
unfoldable pub serialize_fields : EventModifier → Write
serialize_fields (count m) = serialize_count_modifier m
serialize_fields (conditional m) = serialize_conditional_modifier m
serialize_fields (thread_only m) = serialize_thread_only_modifier m
serialize_fields (class_only m) = serialize_class_only_modifier m
serialize_fields (class_match m) = serialize_class_match_modifier m
serialize_fields (class_exclude m) = serialize_class_exclude_modifier m
serialize_fields (location_only m) = serialize_location_only_modifier m
serialize_fields (exception_only m) = serialize_exception_only_modifier m
serialize_fields (field_only m) = serialize_field_only_modifier m
serialize_fields (step m) = serialize_step_modifier m
serialize_fields (instance_only m) = serialize_instance_only_modifier m
serialize_fields (platform_threads_only m) = serialize_platform_threads_only_modifier m

-- `_MODIFIER_CLASSES.get(mod_kind)` and `deserialize` of the class found.
unfoldable pub deserialize_fields : ℤ → Read EventModifier
deserialize_fields kind =
    if kind ==ℤ pos 1
    then (do m ← deserialize_count_modifier; return (count m))
    else if kind ==ℤ pos 2
    then (do m ← deserialize_conditional_modifier; return (conditional m))
    else if kind ==ℤ pos 3
    then (do m ← deserialize_thread_only_modifier; return (thread_only m))
    else if kind ==ℤ pos 4
    then (do m ← deserialize_class_only_modifier; return (class_only m))
    else if kind ==ℤ pos 5
    then (do m ← deserialize_class_match_modifier; return (class_match m))
    else if kind ==ℤ pos 6
    then (do m ← deserialize_class_exclude_modifier; return (class_exclude m))
    else if kind ==ℤ pos 7
    then (do m ← deserialize_location_only_modifier; return (location_only m))
    else if kind ==ℤ pos 8
    then (do m ← deserialize_exception_only_modifier; return (exception_only m))
    else if kind ==ℤ pos 9
    then (do m ← deserialize_field_only_modifier; return (field_only m))
    else if kind ==ℤ pos 10
    then (do m ← deserialize_step_modifier; return (step m))
    else if kind ==ℤ pos 11
    then (do m ← deserialize_instance_only_modifier; return (instance_only m))
    else if kind ==ℤ pos 14
    then (do m ← deserialize_platform_threads_only_modifier; return (platform_threads_only m))
    else raise value_error

unfoldable pub serialize_modifier : EventModifier → Write
serialize_modifier m = do write_byte (pos (mod_kind m)); serialize_fields m

unfoldable pub deserialize_modifier : Read EventModifier
deserialize_modifier = do kind ← read_byte; deserialize_fields kind

abbrev pub IsAnyModifier : Platform → IdSizesSpec → EventModifier → Type 0
IsAnyModifier p s (count m) = IsCountModifier p s m
IsAnyModifier p s (conditional m) = IsConditionalModifier p s m
IsAnyModifier p s (thread_only m) = IsThreadOnlyModifier p s m
IsAnyModifier p s (class_only m) = IsClassOnlyModifier p s m
IsAnyModifier p s (class_match m) = IsClassMatchModifier p s m
IsAnyModifier p s (class_exclude m) = IsClassExcludeModifier p s m
IsAnyModifier p s (location_only m) = IsLocationOnlyModifier p s m
IsAnyModifier p s (exception_only m) = IsExceptionOnlyModifier p s m
IsAnyModifier p s (field_only m) = IsFieldOnlyModifier p s m
IsAnyModifier p s (step m) = IsStepModifier p s m
IsAnyModifier p s (instance_only m) = IsInstanceOnlyModifier p s m
IsAnyModifier p s (platform_threads_only m) = Unit {0}

mod_kind-lt : (m : EventModifier) → mod_kind m < 256
unfolding mod_kind
mod_kind-lt (count m) = omega arith
mod_kind-lt _ = omega arith

module _ {p : Platform} {s : IdSizesSpec} where
  RoundTrip-fields :
      (m : EventModifier)
      → IsAnyModifier p s m
      → RoundTrip p s (serialize_fields m) (deserialize_fields (pos (mod_kind m))) m
  unfolding serialize_fields deserialize_fields mod_kind
  RoundTrip-fields (count m) h = RoundTrip-last count (RoundTrip-count_modifier h)
  RoundTrip-fields (conditional m) h = RoundTrip-last conditional (RoundTrip-conditional_modifier h)
  RoundTrip-fields (thread_only m) h = RoundTrip-last thread_only (RoundTrip-thread_only_modifier h)
  RoundTrip-fields (class_only m) h = RoundTrip-last class_only (RoundTrip-class_only_modifier h)
  RoundTrip-fields (class_match m) h = RoundTrip-last class_match (RoundTrip-class_match_modifier h)
  RoundTrip-fields (class_exclude m) h =
      RoundTrip-last class_exclude (RoundTrip-class_exclude_modifier h)
  RoundTrip-fields (location_only m) h =
      RoundTrip-last location_only (RoundTrip-location_only_modifier h)
  RoundTrip-fields (exception_only m) h =
      RoundTrip-last exception_only (RoundTrip-exception_only_modifier h)
  RoundTrip-fields (field_only m) h = RoundTrip-last field_only (RoundTrip-field_only_modifier h)
  RoundTrip-fields (step m) h = RoundTrip-last step (RoundTrip-step_modifier h)
  RoundTrip-fields (instance_only m) h =
      RoundTrip-last instance_only (RoundTrip-instance_only_modifier h)
  RoundTrip-fields (platform_threads_only m) h =
      RoundTrip-last platform_threads_only (RoundTrip-platform_threads_only_modifier m)

  -- A modifier is read as the class that its kind names.
  pub RoundTrip-modifier :
      {m : EventModifier}
      → IsAnyModifier p s m
      → RoundTrip p s (serialize_modifier m) deserialize_modifier m
  unfolding serialize_modifier deserialize_modifier
  RoundTrip-modifier {m} h =
      RoundTrip-seq _ (RoundTrip-byte (mod_kind m) (mod_kind-lt m)) (RoundTrip-fields m h)
