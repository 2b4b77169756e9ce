-- ===== src/Commands/ClassLoaderReference/Visible.antt =====
-- src/jdwpy/commands/class_loader_reference.py: VisibleClasses.
use jdwpy.Prelude.{All, List, length}
use jdwpy.Prelude.Int.{pos, ℤ}
use jdwpy.Constants.TypeTag.{JdwpTypeTag}
use jdwpy.Spec.{IdSizesSpec}
use jdwpy.Io.{Platform, Read, Write, for_each, read_list, return, ◌>>=◌, ◌>>◌}
use jdwpy.Io.Ranges.{IsId, IsInt}
use jdwpy.Io.Reader.{read_class_loader_id, read_int, read_reference_type_id, read_type_tag}
use jdwpy.Io.Writer.{write_class_loader_id, write_int, write_reference_type_id, write_type_tag}
use jdwpy.Io.Codec.{RoundTrip, RoundTrip-All, RoundTrip-last, RoundTrip-seq}
use jdwpy.Io.Primitives.{RoundTrip-int, RoundTrip-object_id, RoundTrip-reference_type_id}
use jdwpy.Io.Fields.{RoundTrip-type_tag}

pub record VisibleClassesEntry : Type 0 where
  pub ref_type_tag : JdwpTypeTag
  pub type_id : ℤ

unfoldable pub serialize_visible_classes_entry : VisibleClassesEntry → Write
serialize_visible_classes_entry c = do
  write_type_tag c.ref_type_tag
  write_reference_type_id c.type_id

unfoldable pub deserialize_visible_classes_entry : Read VisibleClassesEntry
deserialize_visible_classes_entry = do
  ref_type_tag ← read_type_tag
  type_id ← read_reference_type_id
  return (record { ref_type_tag = ref_type_tag; type_id = type_id })

abbrev pub IsVisibleClassesEntry : Platform → IdSizesSpec → VisibleClassesEntry → Type 0
IsVisibleClassesEntry p s c = IsId s.reference_type_id_struct c.type_id

pub RoundTrip-visible_classes_entry :
    {p : Platform} {s : IdSizesSpec} {c : VisibleClassesEntry}
    → IsVisibleClassesEntry p s c
    → RoundTrip p s (serialize_visible_classes_entry c) deserialize_visible_classes_entry c
unfolding serialize_visible_classes_entry deserialize_visible_classes_entry
RoundTrip-visible_classes_entry h =
    RoundTrip-seq _ RoundTrip-type_tag (RoundTrip-last _ (RoundTrip-reference_type_id h))

pub record VisibleClassesResponse : Type 0 where
  pub classes : List VisibleClassesEntry

unfoldable pub serialize_visible_classes_response : VisibleClassesResponse → Write
serialize_visible_classes_response c = do
  write_int (pos (length c.classes))
  for_each c.classes serialize_visible_classes_entry

unfoldable pub deserialize_visible_classes_response : Read VisibleClassesResponse
deserialize_visible_classes_response = do
  num ← read_int
  classes ← read_list num deserialize_visible_classes_entry
  return (record { classes = classes })

abbrev pub IsVisibleClassesResponse : Platform → IdSizesSpec → VisibleClassesResponse → Type 0
IsVisibleClassesResponse p s c =
    IsInt (pos (length c.classes)) × All (IsVisibleClassesEntry p s) c.classes

pub RoundTrip-visible_classes_response :
    {p : Platform} {s : IdSizesSpec} {c : VisibleClassesResponse}
    → IsVisibleClassesResponse p s c
    → RoundTrip p s (serialize_visible_classes_response c) deserialize_visible_classes_response c
unfolding serialize_visible_classes_response deserialize_visible_classes_response
RoundTrip-visible_classes_response {p = p} {s = s} {c = c} h = RoundTrip-seq _ (RoundTrip-int h.0) (
    RoundTrip-last _ (
      RoundTrip-All serialize_visible_classes_entry deserialize_visible_classes_entry
        (IsVisibleClassesEntry p s) c.classes (λ x h. RoundTrip-visible_classes_entry h) h.1))

pub record VisibleClassesCommand : Type 0 where
  pub class_loader : ℤ

unfoldable pub serialize_visible_classes_command : VisibleClassesCommand → Write
serialize_visible_classes_command c = write_class_loader_id c.class_loader

unfoldable pub deserialize_visible_classes_command : Read VisibleClassesCommand
deserialize_visible_classes_command = do
  class_loader ← read_class_loader_id
  return (record { class_loader = class_loader })

abbrev pub IsVisibleClassesCommand : Platform → IdSizesSpec → VisibleClassesCommand → Type 0
IsVisibleClassesCommand p s c = IsId s.object_id_struct c.class_loader

pub RoundTrip-visible_classes_command :
    {p : Platform} {s : IdSizesSpec} {c : VisibleClassesCommand}
    → IsVisibleClassesCommand p s c
    → RoundTrip p s (serialize_visible_classes_command c) deserialize_visible_classes_command c
unfolding serialize_visible_classes_command deserialize_visible_classes_command
RoundTrip-visible_classes_command h = RoundTrip-last _ (RoundTrip-object_id h)
