-- ===== src/Commands/EventRequest/Filters.antt =====
-- src/jdwpy/commands/event_request.py: the modifiers of kind 1 to 6.
use jdwpy.Prelude.Int.{ℤ}
use jdwpy.Utf8.{Str}
use jdwpy.Spec.{IdSizesSpec}
use jdwpy.Io.{Platform, Read, Write, return, ◌>>=◌}
use jdwpy.Io.Ranges.{IsId, IsInt, IsString}
use jdwpy.Io.Reader.{read_int, read_object_id, read_reference_type_id, read_string}
use jdwpy.Io.Writer.{write_int, write_object_id, write_reference_type_id, write_string}
use jdwpy.Io.Codec.{RoundTrip, RoundTrip-last}
use jdwpy.Io.Primitives.{
  RoundTrip-int, RoundTrip-object_id, RoundTrip-reference_type_id, RoundTrip-string,
}

pub record CountModifier : Type 0 where
  pub count : ℤ

unfoldable pub serialize_count_modifier : CountModifier → Write
serialize_count_modifier c = write_int c.count

unfoldable pub deserialize_count_modifier : Read CountModifier
deserialize_count_modifier = do count ← read_int; return (record { count = count })

abbrev pub IsCountModifier : Platform → IdSizesSpec → CountModifier → Type 0
IsCountModifier p s c = IsInt c.count

pub RoundTrip-count_modifier :
    {p : Platform} {s : IdSizesSpec} {c : CountModifier}
    → IsCountModifier p s c
    → RoundTrip p s (serialize_count_modifier c) deserialize_count_modifier c
unfolding serialize_count_modifier deserialize_count_modifier
RoundTrip-count_modifier h = RoundTrip-last _ (RoundTrip-int h)

pub record ConditionalModifier : Type 0 where
  pub expr_id : ℤ

unfoldable pub serialize_conditional_modifier : ConditionalModifier → Write
serialize_conditional_modifier c = write_int c.expr_id

unfoldable pub deserialize_conditional_modifier : Read ConditionalModifier
deserialize_conditional_modifier = do expr_id ← read_int; return (record { expr_id = expr_id })

abbrev pub IsConditionalModifier : Platform → IdSizesSpec → ConditionalModifier → Type 0
IsConditionalModifier p s c = IsInt c.expr_id

pub RoundTrip-conditional_modifier :
    {p : Platform} {s : IdSizesSpec} {c : ConditionalModifier}
    → IsConditionalModifier p s c
    → RoundTrip p s (serialize_conditional_modifier c) deserialize_conditional_modifier c
unfolding serialize_conditional_modifier deserialize_conditional_modifier
RoundTrip-conditional_modifier h = RoundTrip-last _ (RoundTrip-int h)

pub record ThreadOnlyModifier : Type 0 where
  pub thread : ℤ

unfoldable pub serialize_thread_only_modifier : ThreadOnlyModifier → Write
serialize_thread_only_modifier c = write_object_id c.thread

unfoldable pub deserialize_thread_only_modifier : Read ThreadOnlyModifier
deserialize_thread_only_modifier = do thread ← read_object_id; return (record { thread = thread })

abbrev pub IsThreadOnlyModifier : Platform → IdSizesSpec → ThreadOnlyModifier → Type 0
IsThreadOnlyModifier p s c = IsId s.object_id_struct c.thread

pub RoundTrip-thread_only_modifier :
    {p : Platform} {s : IdSizesSpec} {c : ThreadOnlyModifier}
    → IsThreadOnlyModifier p s c
    → RoundTrip p s (serialize_thread_only_modifier c) deserialize_thread_only_modifier c
unfolding serialize_thread_only_modifier deserialize_thread_only_modifier
RoundTrip-thread_only_modifier h = RoundTrip-last _ (RoundTrip-object_id h)

pub record ClassOnlyModifier : Type 0 where
  pub clazz : ℤ

unfoldable pub serialize_class_only_modifier : ClassOnlyModifier → Write
serialize_class_only_modifier c = write_reference_type_id c.clazz

unfoldable pub deserialize_class_only_modifier : Read ClassOnlyModifier
deserialize_class_only_modifier = do
  clazz ← read_reference_type_id
  return (record { clazz = clazz })

abbrev pub IsClassOnlyModifier : Platform → IdSizesSpec → ClassOnlyModifier → Type 0
IsClassOnlyModifier p s c = IsId s.reference_type_id_struct c.clazz

pub RoundTrip-class_only_modifier :
    {p : Platform} {s : IdSizesSpec} {c : ClassOnlyModifier}
    → IsClassOnlyModifier p s c
    → RoundTrip p s (serialize_class_only_modifier c) deserialize_class_only_modifier c
unfolding serialize_class_only_modifier deserialize_class_only_modifier
RoundTrip-class_only_modifier h = RoundTrip-last _ (RoundTrip-reference_type_id h)

pub record ClassMatchModifier : Type 0 where
  pub class_pattern : Str

unfoldable pub serialize_class_match_modifier : ClassMatchModifier → Write
serialize_class_match_modifier c = write_string c.class_pattern

unfoldable pub deserialize_class_match_modifier : Read ClassMatchModifier
deserialize_class_match_modifier = do
  class_pattern ← read_string
  return (record { class_pattern = class_pattern })

abbrev pub IsClassMatchModifier : Platform → IdSizesSpec → ClassMatchModifier → Type 0
IsClassMatchModifier p s c = IsString c.class_pattern

pub RoundTrip-class_match_modifier :
    {p : Platform} {s : IdSizesSpec} {c : ClassMatchModifier}
    → IsClassMatchModifier p s c
    → RoundTrip p s (serialize_class_match_modifier c) deserialize_class_match_modifier c
unfolding serialize_class_match_modifier deserialize_class_match_modifier
RoundTrip-class_match_modifier h = RoundTrip-last _ (RoundTrip-string h)

pub record ClassExcludeModifier : Type 0 where
  pub class_pattern : Str

unfoldable pub serialize_class_exclude_modifier : ClassExcludeModifier → Write
serialize_class_exclude_modifier c = write_string c.class_pattern

unfoldable pub deserialize_class_exclude_modifier : Read ClassExcludeModifier
deserialize_class_exclude_modifier = do
  class_pattern ← read_string
  return (record { class_pattern = class_pattern })

abbrev pub IsClassExcludeModifier : Platform → IdSizesSpec → ClassExcludeModifier → Type 0
IsClassExcludeModifier p s c = IsString c.class_pattern

pub RoundTrip-class_exclude_modifier :
    {p : Platform} {s : IdSizesSpec} {c : ClassExcludeModifier}
    → IsClassExcludeModifier p s c
    → RoundTrip p s (serialize_class_exclude_modifier c) deserialize_class_exclude_modifier c
unfolding serialize_class_exclude_modifier deserialize_class_exclude_modifier
RoundTrip-class_exclude_modifier h = RoundTrip-last _ (RoundTrip-string h)
