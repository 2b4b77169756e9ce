-- ===== src/Commands/Vm/Objects.antt =====
-- src/jdwpy/commands/vm.py: CreateString, DisposeObjects, RedefineClasses.
use jdwpy.Prelude.{All, List, length}
use jdwpy.Prelude.Int.{pos, ℤ}
use jdwpy.Utf8.{Str}
use jdwpy.Spec.{IdSizesSpec}
use jdwpy.Io.{Platform, Read, Write, for_each, read_list, return, skip, ◌>>=◌, ◌>>◌}
use jdwpy.Io.Ranges.{IsId, IsInt, IsString}
use jdwpy.Io.Reader.{
  read_byte, read_int, read_object_id, read_reference_type_id, read_string, read_string_id,
}
use jdwpy.Io.Writer.{
  write_byte, write_int, write_object_id, write_reference_type_id, write_string, write_string_id,
}
use jdwpy.Io.Codec.{RoundTrip, RoundTrip-All, RoundTrip-last, RoundTrip-return, RoundTrip-seq}
use jdwpy.Io.Primitives.{
  RoundTrip-int, RoundTrip-object_id, RoundTrip-reference_type_id, RoundTrip-string,
}
use jdwpy.Commands.Members.{IsByteInt, RoundTrip-byte_int}

pub record CreateStringResponse : Type 0 where
  pub string_object : ℤ

unfoldable pub serialize_create_string_response : CreateStringResponse → Write
serialize_create_string_response c = write_string_id c.string_object

unfoldable pub deserialize_create_string_response : Read CreateStringResponse
deserialize_create_string_response = do
  string_object ← read_string_id
  return (record { string_object = string_object })

abbrev pub IsCreateStringResponse : Platform → IdSizesSpec → CreateStringResponse → Type 0
IsCreateStringResponse p s c = IsId s.object_id_struct c.string_object

pub RoundTrip-create_string_response :
    {p : Platform} {s : IdSizesSpec} {c : CreateStringResponse}
    → IsCreateStringResponse p s c
    → RoundTrip p s (serialize_create_string_response c) deserialize_create_string_response c
unfolding serialize_create_string_response deserialize_create_string_response
RoundTrip-create_string_response h = RoundTrip-last _ (RoundTrip-object_id h)

pub record CreateStringCommand : Type 0 where
  pub utf : Str

unfoldable pub serialize_create_string_command : CreateStringCommand → Write
serialize_create_string_command c = write_string c.utf

unfoldable pub deserialize_create_string_command : Read CreateStringCommand
deserialize_create_string_command = do utf ← read_string; return (record { utf = utf })

abbrev pub IsCreateStringCommand : Platform → IdSizesSpec → CreateStringCommand → Type 0
IsCreateStringCommand p s c = IsString c.utf

pub RoundTrip-create_string_command :
    {p : Platform} {s : IdSizesSpec} {c : CreateStringCommand}
    → IsCreateStringCommand p s c
    → RoundTrip p s (serialize_create_string_command c) deserialize_create_string_command c
unfolding serialize_create_string_command deserialize_create_string_command
RoundTrip-create_string_command h = RoundTrip-last _ (RoundTrip-string h)

pub record DisposeObjectsRequest : Type 0 where
  pub object_id : ℤ
  pub ref_cnt : ℤ

unfoldable pub serialize_dispose_objects_request : DisposeObjectsRequest → Write
serialize_dispose_objects_request c = do write_object_id c.object_id; write_int c.ref_cnt

unfoldable pub deserialize_dispose_objects_request : Read DisposeObjectsRequest
deserialize_dispose_objects_request = do
  object_id ← read_object_id
  ref_cnt ← read_int
  return (record { object_id = object_id; ref_cnt = ref_cnt })

abbrev pub IsDisposeObjectsRequest : Platform → IdSizesSpec → DisposeObjectsRequest → Type 0
IsDisposeObjectsRequest p s c = IsId s.object_id_struct c.object_id × IsInt c.ref_cnt

pub RoundTrip-dispose_objects_request :
    {p : Platform} {s : IdSizesSpec} {c : DisposeObjectsRequest}
    → IsDisposeObjectsRequest p s c
    → RoundTrip p s (serialize_dispose_objects_request c) deserialize_dispose_objects_request c
unfolding serialize_dispose_objects_request deserialize_dispose_objects_request
RoundTrip-dispose_objects_request h =
    RoundTrip-seq _ (RoundTrip-object_id h.0) (RoundTrip-last _ (RoundTrip-int h.1))

pub data DisposeObjectsResponse : Type 0 where
  dispose_objects_response : DisposeObjectsResponse

unfoldable pub serialize_dispose_objects_response : DisposeObjectsResponse → Write
serialize_dispose_objects_response _ = skip

unfoldable pub deserialize_dispose_objects_response : Read DisposeObjectsResponse
deserialize_dispose_objects_response = return dispose_objects_response

pub RoundTrip-dispose_objects_response :
    {p : Platform} {s : IdSizesSpec} (c : DisposeObjectsResponse)
    → RoundTrip p s (serialize_dispose_objects_response c) deserialize_dispose_objects_response c
unfolding serialize_dispose_objects_response deserialize_dispose_objects_response
RoundTrip-dispose_objects_response dispose_objects_response =
    RoundTrip-return dispose_objects_response

pub record DisposeObjectsCommand : Type 0 where
  pub requests : List DisposeObjectsRequest

unfoldable pub serialize_dispose_objects_command : DisposeObjectsCommand → Write
serialize_dispose_objects_command c = do
  write_int (pos (length c.requests))
  for_each c.requests serialize_dispose_objects_request

unfoldable pub deserialize_dispose_objects_command : Read DisposeObjectsCommand
deserialize_dispose_objects_command = do
  num ← read_int
  requests ← read_list num deserialize_dispose_objects_request
  return (record { requests = requests })

abbrev pub IsDisposeObjectsCommand : Platform → IdSizesSpec → DisposeObjectsCommand → Type 0
IsDisposeObjectsCommand p s c =
    IsInt (pos (length c.requests)) × All (IsDisposeObjectsRequest p s) c.requests

pub RoundTrip-dispose_objects_command :
    {p : Platform} {s : IdSizesSpec} {c : DisposeObjectsCommand}
    → IsDisposeObjectsCommand p s c
    → RoundTrip p s (serialize_dispose_objects_command c) deserialize_dispose_objects_command c
unfolding serialize_dispose_objects_command deserialize_dispose_objects_command
RoundTrip-dispose_objects_command {p = p} {s = s} {c = c} h = RoundTrip-seq _ (RoundTrip-int h.0) (
    RoundTrip-last _ (
      RoundTrip-All serialize_dispose_objects_request deserialize_dispose_objects_request
        (IsDisposeObjectsRequest p s) c.requests (λ x h. RoundTrip-dispose_objects_request h) h.1))

pub record RedefineClassesRequest : Type 0 where
  pub ref_type : ℤ
  pub class_bytes : List ℤ

unfoldable pub serialize_redefine_classes_request : RedefineClassesRequest → Write
serialize_redefine_classes_request c = do
  write_reference_type_id c.ref_type
  write_int (pos (length c.class_bytes))
  for_each c.class_bytes write_byte

unfoldable pub deserialize_redefine_classes_request : Read RedefineClassesRequest
deserialize_redefine_classes_request = do
  ref_type ← read_reference_type_id
  num_bytes ← read_int
  class_bytes ← read_list num_bytes read_byte
  return (record { ref_type = ref_type; class_bytes = class_bytes })

abbrev pub IsRedefineClassesRequest : Platform → IdSizesSpec → RedefineClassesRequest → Type 0
IsRedefineClassesRequest p s c =
    IsId s.reference_type_id_struct c.ref_type
    × IsInt (pos (length c.class_bytes))
    × All (λ x. IsByteInt x) c.class_bytes

pub RoundTrip-redefine_classes_request :
    {p : Platform} {s : IdSizesSpec} {c : RedefineClassesRequest}
    → IsRedefineClassesRequest p s c
    → RoundTrip p s (serialize_redefine_classes_request c) deserialize_redefine_classes_request c
unfolding serialize_redefine_classes_request deserialize_redefine_classes_request
RoundTrip-redefine_classes_request {c = c} h = RoundTrip-seq _ (RoundTrip-reference_type_id h.0) (
    RoundTrip-seq _ (RoundTrip-int h.1) (
      RoundTrip-last _ (
        RoundTrip-All write_byte read_byte (λ x. IsByteInt x) c.class_bytes
          (λ x h. RoundTrip-byte_int h) h.2)))

pub data RedefineClassesResponse : Type 0 where
  redefine_classes_response : RedefineClassesResponse

unfoldable pub serialize_redefine_classes_response : RedefineClassesResponse → Write
serialize_redefine_classes_response _ = skip

unfoldable pub deserialize_redefine_classes_response : Read RedefineClassesResponse
deserialize_redefine_classes_response = return redefine_classes_response

pub RoundTrip-redefine_classes_response :
    {p : Platform} {s : IdSizesSpec} (c : RedefineClassesResponse)
    → RoundTrip p s (serialize_redefine_classes_response c) deserialize_redefine_classes_response c
unfolding serialize_redefine_classes_response deserialize_redefine_classes_response
RoundTrip-redefine_classes_response redefine_classes_response =
    RoundTrip-return redefine_classes_response

pub record RedefineClassesCommand : Type 0 where
  pub classes : List RedefineClassesRequest

unfoldable pub serialize_redefine_classes_command : RedefineClassesCommand → Write
serialize_redefine_classes_command c = do
  write_int (pos (length c.classes))
  for_each c.classes serialize_redefine_classes_request

unfoldable pub deserialize_redefine_classes_command : Read RedefineClassesCommand
deserialize_redefine_classes_command = do
  num ← read_int
  classes ← read_list num deserialize_redefine_classes_request
  return (record { classes = classes })

abbrev pub IsRedefineClassesCommand : Platform → IdSizesSpec → RedefineClassesCommand → Type 0
IsRedefineClassesCommand p s c =
    IsInt (pos (length c.classes)) × All (IsRedefineClassesRequest p s) c.classes

pub RoundTrip-redefine_classes_command :
    {p : Platform} {s : IdSizesSpec} {c : RedefineClassesCommand}
    → IsRedefineClassesCommand p s c
    → RoundTrip p s (serialize_redefine_classes_command c) deserialize_redefine_classes_command c
unfolding serialize_redefine_classes_command deserialize_redefine_classes_command
RoundTrip-redefine_classes_command {p = p} {s = s} {c = c} h = RoundTrip-seq _ (RoundTrip-int h.0) (
    RoundTrip-last _ (
      RoundTrip-All serialize_redefine_classes_request deserialize_redefine_classes_request
        (IsRedefineClassesRequest p s) c.classes (λ x h. RoundTrip-redefine_classes_request h) h.1))
