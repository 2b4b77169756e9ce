-- ===== src/Commands/ThreadGroupReference/Groups.antt =====
-- src/jdwpy/commands/thread_group_reference.py: Name, Parent, Children.
use jdwpy.Prelude.{All, List, length}
use jdwpy.Prelude.Int.{pos, ℤ}
use jdwpy.Utf8.{Str}
use jdwpy.Spec.{IdSizesSpec}
use jdwpy.Io.{Platform, Read, Write, for_each, read_list, return, ◌>>=◌, ◌>>◌}
use jdwpy.Io.Ranges.{IsId, IsInt, IsString}
use jdwpy.Io.Reader.{read_int, read_string, read_thread_group_id, read_thread_id}
use jdwpy.Io.Writer.{write_int, write_string, write_thread_group_id, write_thread_id}
use jdwpy.Io.Codec.{RoundTrip, RoundTrip-All, RoundTrip-last, RoundTrip-seq}
use jdwpy.Io.Primitives.{RoundTrip-int, RoundTrip-object_id, RoundTrip-string}

pub record NameResponse : Type 0 where
  pub group_name : Str

unfoldable pub serialize_name_response : NameResponse → Write
serialize_name_response c = write_string c.group_name

unfoldable pub deserialize_name_response : Read NameResponse
deserialize_name_response = do group_name ← read_string; return (record { group_name = group_name })

abbrev pub IsNameResponse : Platform → IdSizesSpec → NameResponse → Type 0
IsNameResponse p s c = IsString c.group_name

pub RoundTrip-name_response :
    {p : Platform} {s : IdSizesSpec} {c : NameResponse}
    → IsNameResponse p s c
    → RoundTrip p s (serialize_name_response c) deserialize_name_response c
unfolding serialize_name_response deserialize_name_response
RoundTrip-name_response h = RoundTrip-last _ (RoundTrip-string h)

pub record NameCommand : Type 0 where
  pub group : ℤ

unfoldable pub serialize_name_command : NameCommand → Write
serialize_name_command c = write_thread_group_id c.group

unfoldable pub deserialize_name_command : Read NameCommand
deserialize_name_command = do group ← read_thread_group_id; return (record { group = group })

abbrev pub IsNameCommand : Platform → IdSizesSpec → NameCommand → Type 0
IsNameCommand p s c = IsId s.object_id_struct c.group

pub RoundTrip-name_command :
    {p : Platform} {s : IdSizesSpec} {c : NameCommand}
    → IsNameCommand p s c
    → RoundTrip p s (serialize_name_command c) deserialize_name_command c
unfolding serialize_name_command deserialize_name_command
RoundTrip-name_command h = RoundTrip-last _ (RoundTrip-object_id h)

pub record ParentResponse : Type 0 where
  pub parent_group : ℤ

unfoldable pub serialize_parent_response : ParentResponse → Write
serialize_parent_response c = write_thread_group_id c.parent_group

unfoldable pub deserialize_parent_response : Read ParentResponse
deserialize_parent_response = do
  parent_group ← read_thread_group_id
  return (record { parent_group = parent_group })

abbrev pub IsParentResponse : Platform → IdSizesSpec → ParentResponse → Type 0
IsParentResponse p s c = IsId s.object_id_struct c.parent_group

pub RoundTrip-parent_response :
    {p : Platform} {s : IdSizesSpec} {c : ParentResponse}
    → IsParentResponse p s c
    → RoundTrip p s (serialize_parent_response c) deserialize_parent_response c
unfolding serialize_parent_response deserialize_parent_response
RoundTrip-parent_response h = RoundTrip-last _ (RoundTrip-object_id h)

pub record ParentCommand : Type 0 where
  pub group : ℤ

unfoldable pub serialize_parent_command : ParentCommand → Write
serialize_parent_command c = write_thread_group_id c.group

unfoldable pub deserialize_parent_command : Read ParentCommand
deserialize_parent_command = do group ← read_thread_group_id; return (record { group = group })

abbrev pub IsParentCommand : Platform → IdSizesSpec → ParentCommand → Type 0
IsParentCommand p s c = IsId s.object_id_struct c.group

pub RoundTrip-parent_command :
    {p : Platform} {s : IdSizesSpec} {c : ParentCommand}
    → IsParentCommand p s c
    → RoundTrip p s (serialize_parent_command c) deserialize_parent_command c
unfolding serialize_parent_command deserialize_parent_command
RoundTrip-parent_command h = RoundTrip-last _ (RoundTrip-object_id h)

pub record ChildrenResponse : Type 0 where
  pub child_threads : List ℤ
  pub child_groups : List ℤ

unfoldable pub serialize_children_response : ChildrenResponse → Write
serialize_children_response c = do
  write_int (pos (length c.child_threads))
  for_each c.child_threads write_thread_id
  write_int (pos (length c.child_groups))
  for_each c.child_groups write_thread_group_id

unfoldable pub deserialize_children_response : Read ChildrenResponse
deserialize_children_response = do
  num_threads ← read_int
  child_threads ← read_list num_threads read_thread_id
  num_groups ← read_int
  child_groups ← read_list num_groups read_thread_group_id
  return (record { child_threads = child_threads; child_groups = child_groups })

abbrev pub IsChildrenResponse : Platform → IdSizesSpec → ChildrenResponse → Type 0
IsChildrenResponse p s c =
    IsInt (pos (length c.child_threads))
    × All (λ x. IsId s.object_id_struct x) c.child_threads
    × IsInt (pos (length c.child_groups))
    × All (λ x. IsId s.object_id_struct x) c.child_groups

pub RoundTrip-children_response :
    {p : Platform} {s : IdSizesSpec} {c : ChildrenResponse}
    → IsChildrenResponse p s c
    → RoundTrip p s (serialize_children_response c) deserialize_children_response c
unfolding serialize_children_response deserialize_children_response
RoundTrip-children_response {s = s} {c = c} h = RoundTrip-seq _ (RoundTrip-int h.0) (
    RoundTrip-seq _
      (RoundTrip-All write_thread_id read_thread_id (λ x. IsId s.object_id_struct x) c.child_threads
        (λ x h. RoundTrip-object_id h) h.1)
      (RoundTrip-seq _ (RoundTrip-int h.2) (
        RoundTrip-last _ (
          RoundTrip-All write_thread_group_id read_thread_group_id (λ x. IsId s.object_id_struct x)
            c.child_groups (λ x h. RoundTrip-object_id h) h.3))))

pub record ChildrenCommand : Type 0 where
  pub group : ℤ

unfoldable pub serialize_children_command : ChildrenCommand → Write
serialize_children_command c = write_thread_group_id c.group

unfoldable pub deserialize_children_command : Read ChildrenCommand
deserialize_children_command = do group ← read_thread_group_id; return (record { group = group })

abbrev pub IsChildrenCommand : Platform → IdSizesSpec → ChildrenCommand → Type 0
IsChildrenCommand p s c = IsId s.object_id_struct c.group

pub RoundTrip-children_command :
    {p : Platform} {s : IdSizesSpec} {c : ChildrenCommand}
    → IsChildrenCommand p s c
    → RoundTrip p s (serialize_children_command c) deserialize_children_command c
unfolding serialize_children_command deserialize_children_command
RoundTrip-children_command h = RoundTrip-last _ (RoundTrip-object_id h)
