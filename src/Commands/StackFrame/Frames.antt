-- ===== src/Commands/StackFrame/Frames.antt =====
-- src/jdwpy/commands/stack_frame.py: ThisObject, PopFrames.
use jdwpy.Prelude.Int.{ℤ}
use jdwpy.Spec.{IdSizesSpec, TaggedObjectId}
use jdwpy.Io.{Platform, Read, Write, return, skip, ◌>>=◌, ◌>>◌}
use jdwpy.Io.Ranges.{IsId}
use jdwpy.Io.Reader.{read_frame_id, read_tagged_object, read_thread_id}
use jdwpy.Io.Writer.{write_frame_id, write_tagged_object, write_thread_id}
use jdwpy.Io.Codec.{RoundTrip, RoundTrip-last, RoundTrip-return, RoundTrip-seq}
use jdwpy.Io.Primitives.{RoundTrip-frame_id, RoundTrip-object_id}
use jdwpy.Io.Fields.{IsTaggedObject, RoundTrip-tagged_object}

pub record ThisObjectResponse : Type 0 where
  pub this_object : TaggedObjectId

unfoldable pub serialize_this_object_response : ThisObjectResponse → Write
serialize_this_object_response c = write_tagged_object c.this_object

unfoldable pub deserialize_this_object_response : Read ThisObjectResponse
deserialize_this_object_response = do
  this_object ← read_tagged_object
  return (record { this_object = this_object })

abbrev pub IsThisObjectResponse : Platform → IdSizesSpec → ThisObjectResponse → Type 0
IsThisObjectResponse p s c = IsTaggedObject s c.this_object

pub RoundTrip-this_object_response :
    {p : Platform} {s : IdSizesSpec} {c : ThisObjectResponse}
    → IsThisObjectResponse p s c
    → RoundTrip p s (serialize_this_object_response c) deserialize_this_object_response c
unfolding serialize_this_object_response deserialize_this_object_response
RoundTrip-this_object_response h = RoundTrip-last _ (RoundTrip-tagged_object h)

pub record ThisObjectCommand : Type 0 where
  pub thread : ℤ
  pub frame : ℤ

unfoldable pub serialize_this_object_command : ThisObjectCommand → Write
serialize_this_object_command c = do write_thread_id c.thread; write_frame_id c.frame

unfoldable pub deserialize_this_object_command : Read ThisObjectCommand
deserialize_this_object_command = do
  thread ← read_thread_id
  frame ← read_frame_id
  return (record { thread = thread; frame = frame })

abbrev pub IsThisObjectCommand : Platform → IdSizesSpec → ThisObjectCommand → Type 0
IsThisObjectCommand p s c = IsId s.object_id_struct c.thread × IsId s.frame_id_struct c.frame

pub RoundTrip-this_object_command :
    {p : Platform} {s : IdSizesSpec} {c : ThisObjectCommand}
    → IsThisObjectCommand p s c
    → RoundTrip p s (serialize_this_object_command c) deserialize_this_object_command c
unfolding serialize_this_object_command deserialize_this_object_command
RoundTrip-this_object_command h =
    RoundTrip-seq _ (RoundTrip-object_id h.0) (RoundTrip-last _ (RoundTrip-frame_id h.1))

pub data PopFramesResponse : Type 0 where
  pop_frames_response : PopFramesResponse

unfoldable pub serialize_pop_frames_response : PopFramesResponse → Write
serialize_pop_frames_response _ = skip

unfoldable pub deserialize_pop_frames_response : Read PopFramesResponse
deserialize_pop_frames_response = return pop_frames_response

pub RoundTrip-pop_frames_response :
    {p : Platform} {s : IdSizesSpec} (c : PopFramesResponse)
    → RoundTrip p s (serialize_pop_frames_response c) deserialize_pop_frames_response c
unfolding serialize_pop_frames_response deserialize_pop_frames_response
RoundTrip-pop_frames_response pop_frames_response = RoundTrip-return pop_frames_response

pub record PopFramesCommand : Type 0 where
  pub thread : ℤ
  pub frame : ℤ

unfoldable pub serialize_pop_frames_command : PopFramesCommand → Write
serialize_pop_frames_command c = do write_thread_id c.thread; write_frame_id c.frame

unfoldable pub deserialize_pop_frames_command : Read PopFramesCommand
deserialize_pop_frames_command = do
  thread ← read_thread_id
  frame ← read_frame_id
  return (record { thread = thread; frame = frame })

abbrev pub IsPopFramesCommand : Platform → IdSizesSpec → PopFramesCommand → Type 0
IsPopFramesCommand p s c = IsId s.object_id_struct c.thread × IsId s.frame_id_struct c.frame

pub RoundTrip-pop_frames_command :
    {p : Platform} {s : IdSizesSpec} {c : PopFramesCommand}
    → IsPopFramesCommand p s c
    → RoundTrip p s (serialize_pop_frames_command c) deserialize_pop_frames_command c
unfolding serialize_pop_frames_command deserialize_pop_frames_command
RoundTrip-pop_frames_command h =
    RoundTrip-seq _ (RoundTrip-object_id h.0) (RoundTrip-last _ (RoundTrip-frame_id h.1))
