-- ===== src/Commands/ThreadReference/Frames.antt =====
-- src/jdwpy/commands/thread_reference.py: ThreadGroup, Frames, FrameCount.
use jdwpy.Prelude.{All, List, length}
use jdwpy.Prelude.Int.{pos, ℤ}
use jdwpy.Spec.{IdSizesSpec, Location}
use jdwpy.Io.{Platform, Read, Write, for_each, read_list, return, ◌>>=◌, ◌>>◌}
use jdwpy.Io.Ranges.{IsId, IsInt}
use jdwpy.Io.Reader.{read_frame_id, read_int, read_location, read_thread_group_id, read_thread_id}
use jdwpy.Io.Writer.{
  write_frame_id, write_int, write_location, write_thread_group_id, write_thread_id,
}
use jdwpy.Io.Codec.{RoundTrip, RoundTrip-All, RoundTrip-last, RoundTrip-seq}
use jdwpy.Io.Primitives.{RoundTrip-frame_id, RoundTrip-int, RoundTrip-object_id}
use jdwpy.Io.Fields.{IsLocation, RoundTrip-location}

pub record ThreadGroupResponse : Type 0 where
  pub thread_group : ℤ

unfoldable pub serialize_thread_group_response : ThreadGroupResponse → Write
serialize_thread_group_response c = write_thread_group_id c.thread_group

unfoldable pub deserialize_thread_group_response : Read ThreadGroupResponse
deserialize_thread_group_response = do
  thread_group ← read_thread_group_id
  return (record { thread_group = thread_group })

abbrev pub IsThreadGroupResponse : Platform → IdSizesSpec → ThreadGroupResponse → Type 0
IsThreadGroupResponse p s c = IsId s.object_id_struct c.thread_group

pub RoundTrip-thread_group_response :
    {p : Platform} {s : IdSizesSpec} {c : ThreadGroupResponse}
    → IsThreadGroupResponse p s c
    → RoundTrip p s (serialize_thread_group_response c) deserialize_thread_group_response c
unfolding serialize_thread_group_response deserialize_thread_group_response
RoundTrip-thread_group_response h = RoundTrip-last _ (RoundTrip-object_id h)

pub record ThreadGroupCommand : Type 0 where
  pub thread : ℤ

unfoldable pub serialize_thread_group_command : ThreadGroupCommand → Write
serialize_thread_group_command c = write_thread_id c.thread

unfoldable pub deserialize_thread_group_command : Read ThreadGroupCommand
deserialize_thread_group_command = do thread ← read_thread_id; return (record { thread = thread })

abbrev pub IsThreadGroupCommand : Platform → IdSizesSpec → ThreadGroupCommand → Type 0
IsThreadGroupCommand p s c = IsId s.object_id_struct c.thread

pub RoundTrip-thread_group_command :
    {p : Platform} {s : IdSizesSpec} {c : ThreadGroupCommand}
    → IsThreadGroupCommand p s c
    → RoundTrip p s (serialize_thread_group_command c) deserialize_thread_group_command c
unfolding serialize_thread_group_command deserialize_thread_group_command
RoundTrip-thread_group_command h = RoundTrip-last _ (RoundTrip-object_id h)

pub record FramesEntry : Type 0 where
  pub frame_id : ℤ
  pub location : Location

unfoldable pub serialize_frames_entry : FramesEntry → Write
serialize_frames_entry c = do write_frame_id c.frame_id; write_location c.location

unfoldable pub deserialize_frames_entry : Read FramesEntry
deserialize_frames_entry = do
  frame_id ← read_frame_id
  location ← read_location
  return (record { frame_id = frame_id; location = location })

abbrev pub IsFramesEntry : Platform → IdSizesSpec → FramesEntry → Type 0
IsFramesEntry p s c = IsId s.frame_id_struct c.frame_id × IsLocation s c.location

pub RoundTrip-frames_entry :
    {p : Platform} {s : IdSizesSpec} {c : FramesEntry}
    → IsFramesEntry p s c
    → RoundTrip p s (serialize_frames_entry c) deserialize_frames_entry c
unfolding serialize_frames_entry deserialize_frames_entry
RoundTrip-frames_entry h =
    RoundTrip-seq _ (RoundTrip-frame_id h.0) (RoundTrip-last _ (RoundTrip-location h.1))

pub record FramesResponse : Type 0 where
  pub frames : List FramesEntry

unfoldable pub serialize_frames_response : FramesResponse → Write
serialize_frames_response c = do
  write_int (pos (length c.frames))
  for_each c.frames serialize_frames_entry

unfoldable pub deserialize_frames_response : Read FramesResponse
deserialize_frames_response = do
  num ← read_int
  frames ← read_list num deserialize_frames_entry
  return (record { frames = frames })

abbrev pub IsFramesResponse : Platform → IdSizesSpec → FramesResponse → Type 0
IsFramesResponse p s c = IsInt (pos (length c.frames)) × All (IsFramesEntry p s) c.frames

pub RoundTrip-frames_response :
    {p : Platform} {s : IdSizesSpec} {c : FramesResponse}
    → IsFramesResponse p s c
    → RoundTrip p s (serialize_frames_response c) deserialize_frames_response c
unfolding serialize_frames_response deserialize_frames_response
RoundTrip-frames_response {p = p} {s = s} {c = c} h = RoundTrip-seq _ (RoundTrip-int h.0) (
    RoundTrip-last _ (
      RoundTrip-All serialize_frames_entry deserialize_frames_entry (IsFramesEntry p s) c.frames
        (λ x h. RoundTrip-frames_entry h) h.1))

pub record FramesCommand : Type 0 where
  pub thread : ℤ
  pub start_frame : ℤ
  pub length : ℤ

unfoldable pub serialize_frames_command : FramesCommand → Write
serialize_frames_command c = do
  write_thread_id c.thread
  write_int c.start_frame
  write_int c.length

unfoldable pub deserialize_frames_command : Read FramesCommand
deserialize_frames_command = do
  thread ← read_thread_id
  start_frame ← read_int
  length ← read_int
  return (record { thread = thread; start_frame = start_frame; length = length })

abbrev pub IsFramesCommand : Platform → IdSizesSpec → FramesCommand → Type 0
IsFramesCommand p s c = IsId s.object_id_struct c.thread × IsInt c.start_frame × IsInt c.length

pub RoundTrip-frames_command :
    {p : Platform} {s : IdSizesSpec} {c : FramesCommand}
    → IsFramesCommand p s c
    → RoundTrip p s (serialize_frames_command c) deserialize_frames_command c
unfolding serialize_frames_command deserialize_frames_command
RoundTrip-frames_command h =
    RoundTrip-seq _ (RoundTrip-object_id h.0)
      (RoundTrip-seq _ (RoundTrip-int h.1) (RoundTrip-last _ (RoundTrip-int h.2)))

pub record FrameCountResponse : Type 0 where
  pub frame_count : ℤ

unfoldable pub serialize_frame_count_response : FrameCountResponse → Write
serialize_frame_count_response c = write_int c.frame_count

unfoldable pub deserialize_frame_count_response : Read FrameCountResponse
deserialize_frame_count_response = do
  frame_count ← read_int
  return (record { frame_count = frame_count })

abbrev pub IsFrameCountResponse : Platform → IdSizesSpec → FrameCountResponse → Type 0
IsFrameCountResponse p s c = IsInt c.frame_count

pub RoundTrip-frame_count_response :
    {p : Platform} {s : IdSizesSpec} {c : FrameCountResponse}
    → IsFrameCountResponse p s c
    → RoundTrip p s (serialize_frame_count_response c) deserialize_frame_count_response c
unfolding serialize_frame_count_response deserialize_frame_count_response
RoundTrip-frame_count_response h = RoundTrip-last _ (RoundTrip-int h)

pub record FrameCountCommand : Type 0 where
  pub thread : ℤ

unfoldable pub serialize_frame_count_command : FrameCountCommand → Write
serialize_frame_count_command c = write_thread_id c.thread

unfoldable pub deserialize_frame_count_command : Read FrameCountCommand
deserialize_frame_count_command = do thread ← read_thread_id; return (record { thread = thread })

abbrev pub IsFrameCountCommand : Platform → IdSizesSpec → FrameCountCommand → Type 0
IsFrameCountCommand p s c = IsId s.object_id_struct c.thread

pub RoundTrip-frame_count_command :
    {p : Platform} {s : IdSizesSpec} {c : FrameCountCommand}
    → IsFrameCountCommand p s c
    → RoundTrip p s (serialize_frame_count_command c) deserialize_frame_count_command c
unfolding serialize_frame_count_command deserialize_frame_count_command
RoundTrip-frame_count_command h = RoundTrip-last _ (RoundTrip-object_id h)
