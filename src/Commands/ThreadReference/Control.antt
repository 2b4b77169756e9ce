-- ===== src/Commands/ThreadReference/Control.antt =====
-- src/jdwpy/commands/thread_reference.py: Name, Suspend, Resume, Status.
use jdwpy.Prelude.Int.{ℤ}
use jdwpy.Utf8.{Str}
use jdwpy.Constants.Policies.{JdwpSuspendStatus, JdwpThreadStatus}
use jdwpy.Spec.{IdSizesSpec}
use jdwpy.Io.{Platform, Read, Write, return, skip, ◌>>=◌, ◌>>◌}
use jdwpy.Io.Ranges.{IsId, IsString}
use jdwpy.Io.Reader.{read_string, read_thread_id}
use jdwpy.Io.Writer.{write_string, write_thread_id}
use jdwpy.Io.Codec.{RoundTrip, RoundTrip-last, RoundTrip-return, RoundTrip-seq}
use jdwpy.Io.Primitives.{RoundTrip-object_id, RoundTrip-string}
use jdwpy.Commands.Members.{
  RoundTrip-suspend_status, RoundTrip-thread_status, read_suspend_status, read_thread_status,
  write_suspend_status, write_thread_status,
}

pub record NameResponse : Type 0 where
  pub thread_name : Str

unfoldable pub serialize_name_response : NameResponse → Write
serialize_name_response c = write_string c.thread_name

unfoldable pub deserialize_name_response : Read NameResponse
deserialize_name_response = do
  thread_name ← read_string
  return (record { thread_name = thread_name })

abbrev pub IsNameResponse : Platform → IdSizesSpec → NameResponse → Type 0
IsNameResponse p s c = IsString c.thread_name

pub RoundTrip-name_response :
    {p : Platform} {s : IdSizesSpec} {c : NameResponse}
    → IsNameResponse p s c
    → RoundTrip p s (serialize_name_response c) deserialize_name_response c
unfolding serialize_name_response deserialize_name_response
RoundTrip-name_response h = RoundTrip-last _ (RoundTrip-string h)

pub record NameCommand : Type 0 where
  pub thread : ℤ

unfoldable pub serialize_name_command : NameCommand → Write
serialize_name_command c = write_thread_id c.thread

unfoldable pub deserialize_name_command : Read NameCommand
deserialize_name_command = do thread ← read_thread_id; return (record { thread = thread })

abbrev pub IsNameCommand : Platform → IdSizesSpec → NameCommand → Type 0
IsNameCommand p s c = IsId s.object_id_struct c.thread

pub RoundTrip-name_command :
    {p : Platform} {s : IdSizesSpec} {c : NameCommand}
    → IsNameCommand p s c
    → RoundTrip p s (serialize_name_command c) deserialize_name_command c
unfolding serialize_name_command deserialize_name_command
RoundTrip-name_command h = RoundTrip-last _ (RoundTrip-object_id h)

pub data SuspendResponse : Type 0 where
  suspend_response : SuspendResponse

unfoldable pub serialize_suspend_response : SuspendResponse → Write
serialize_suspend_response _ = skip

unfoldable pub deserialize_suspend_response : Read SuspendResponse
deserialize_suspend_response = return suspend_response

pub RoundTrip-suspend_response :
    {p : Platform} {s : IdSizesSpec} (c : SuspendResponse)
    → RoundTrip p s (serialize_suspend_response c) deserialize_suspend_response c
unfolding serialize_suspend_response deserialize_suspend_response
RoundTrip-suspend_response suspend_response = RoundTrip-return suspend_response

pub record SuspendCommand : Type 0 where
  pub thread : ℤ

unfoldable pub serialize_suspend_command : SuspendCommand → Write
serialize_suspend_command c = write_thread_id c.thread

unfoldable pub deserialize_suspend_command : Read SuspendCommand
deserialize_suspend_command = do thread ← read_thread_id; return (record { thread = thread })

abbrev pub IsSuspendCommand : Platform → IdSizesSpec → SuspendCommand → Type 0
IsSuspendCommand p s c = IsId s.object_id_struct c.thread

pub RoundTrip-suspend_command :
    {p : Platform} {s : IdSizesSpec} {c : SuspendCommand}
    → IsSuspendCommand p s c
    → RoundTrip p s (serialize_suspend_command c) deserialize_suspend_command c
unfolding serialize_suspend_command deserialize_suspend_command
RoundTrip-suspend_command h = RoundTrip-last _ (RoundTrip-object_id h)

pub data ResumeResponse : Type 0 where
  resume_response : ResumeResponse

unfoldable pub serialize_resume_response : ResumeResponse → Write
serialize_resume_response _ = skip

unfoldable pub deserialize_resume_response : Read ResumeResponse
deserialize_resume_response = return resume_response

pub RoundTrip-resume_response :
    {p : Platform} {s : IdSizesSpec} (c : ResumeResponse)
    → RoundTrip p s (serialize_resume_response c) deserialize_resume_response c
unfolding serialize_resume_response deserialize_resume_response
RoundTrip-resume_response resume_response = RoundTrip-return resume_response

pub record ResumeCommand : Type 0 where
  pub thread : ℤ

unfoldable pub serialize_resume_command : ResumeCommand → Write
serialize_resume_command c = write_thread_id c.thread

unfoldable pub deserialize_resume_command : Read ResumeCommand
deserialize_resume_command = do thread ← read_thread_id; return (record { thread = thread })

abbrev pub IsResumeCommand : Platform → IdSizesSpec → ResumeCommand → Type 0
IsResumeCommand p s c = IsId s.object_id_struct c.thread

pub RoundTrip-resume_command :
    {p : Platform} {s : IdSizesSpec} {c : ResumeCommand}
    → IsResumeCommand p s c
    → RoundTrip p s (serialize_resume_command c) deserialize_resume_command c
unfolding serialize_resume_command deserialize_resume_command
RoundTrip-resume_command h = RoundTrip-last _ (RoundTrip-object_id h)

pub record StatusResponse : Type 0 where
  pub thread_status : JdwpThreadStatus
  pub suspend_status : JdwpSuspendStatus

unfoldable pub serialize_status_response : StatusResponse → Write
serialize_status_response c = do
  write_thread_status c.thread_status
  write_suspend_status c.suspend_status

unfoldable pub deserialize_status_response : Read StatusResponse
deserialize_status_response = do
  thread_status ← read_thread_status
  suspend_status ← read_suspend_status
  return (record { thread_status = thread_status; suspend_status = suspend_status })

pub RoundTrip-status_response :
    {p : Platform} {s : IdSizesSpec} {c : StatusResponse}
    → RoundTrip p s (serialize_status_response c) deserialize_status_response c
unfolding serialize_status_response deserialize_status_response
RoundTrip-status_response =
    RoundTrip-seq _ RoundTrip-thread_status (RoundTrip-last _ RoundTrip-suspend_status)

pub record StatusCommand : Type 0 where
  pub thread : ℤ

unfoldable pub serialize_status_command : StatusCommand → Write
serialize_status_command c = write_thread_id c.thread

unfoldable pub deserialize_status_command : Read StatusCommand
deserialize_status_command = do thread ← read_thread_id; return (record { thread = thread })

abbrev pub IsStatusCommand : Platform → IdSizesSpec → StatusCommand → Type 0
IsStatusCommand p s c = IsId s.object_id_struct c.thread

pub RoundTrip-status_command :
    {p : Platform} {s : IdSizesSpec} {c : StatusCommand}
    → IsStatusCommand p s c
    → RoundTrip p s (serialize_status_command c) deserialize_status_command c
unfolding serialize_status_command deserialize_status_command
RoundTrip-status_command h = RoundTrip-last _ (RoundTrip-object_id h)
