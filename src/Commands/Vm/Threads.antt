-- ===== src/Commands/Vm/Threads.antt =====
-- src/jdwpy/commands/vm.py: AllThreads, TopLevelThreadGroups, Suspend, Resume.
use jdwpy.Prelude.{All, List, length}
use jdwpy.Prelude.Int.{pos, ℤ}
use jdwpy.Spec.{IdSizesSpec}
use jdwpy.Io.{Platform, Read, Write, for_each, read_list, return, skip, ◌>>=◌, ◌>>◌}
use jdwpy.Io.Ranges.{IsId, IsInt}
use jdwpy.Io.Reader.{read_int, read_thread_group_id, read_thread_id}
use jdwpy.Io.Writer.{write_int, write_thread_group_id, write_thread_id}
use jdwpy.Io.Codec.{RoundTrip, RoundTrip-All, RoundTrip-last, RoundTrip-return, RoundTrip-seq}
use jdwpy.Io.Primitives.{RoundTrip-int, RoundTrip-object_id}

pub record AllThreadsResponse : Type 0 where
  pub threads : List ℤ

unfoldable pub serialize_all_threads_response : AllThreadsResponse → Write
serialize_all_threads_response c = do
  write_int (pos (length c.threads))
  for_each c.threads write_thread_id

unfoldable pub deserialize_all_threads_response : Read AllThreadsResponse
deserialize_all_threads_response = do
  num ← read_int
  threads ← read_list num read_thread_id
  return (record { threads = threads })

abbrev pub IsAllThreadsResponse : Platform → IdSizesSpec → AllThreadsResponse → Type 0
IsAllThreadsResponse p s c =
    IsInt (pos (length c.threads)) × All (λ x. IsId s.object_id_struct x) c.threads

pub RoundTrip-all_threads_response :
    {p : Platform} {s : IdSizesSpec} {c : AllThreadsResponse}
    → IsAllThreadsResponse p s c
    → RoundTrip p s (serialize_all_threads_response c) deserialize_all_threads_response c
unfolding serialize_all_threads_response deserialize_all_threads_response
RoundTrip-all_threads_response {s = s} {c = c} h = RoundTrip-seq _ (RoundTrip-int h.0) (
    RoundTrip-last _ (
      RoundTrip-All write_thread_id read_thread_id (λ x. IsId s.object_id_struct x) c.threads
        (λ x h. RoundTrip-object_id h) h.1))

pub data AllThreadsCommand : Type 0 where
  all_threads_command : AllThreadsCommand

unfoldable pub serialize_all_threads_command : AllThreadsCommand → Write
serialize_all_threads_command _ = skip

unfoldable pub deserialize_all_threads_command : Read AllThreadsCommand
deserialize_all_threads_command = return all_threads_command

pub RoundTrip-all_threads_command :
    {p : Platform} {s : IdSizesSpec} (c : AllThreadsCommand)
    → RoundTrip p s (serialize_all_threads_command c) deserialize_all_threads_command c
unfolding serialize_all_threads_command deserialize_all_threads_command
RoundTrip-all_threads_command all_threads_command = RoundTrip-return all_threads_command

pub record TopLevelThreadGroupsResponse : Type 0 where
  pub groups : List ℤ

unfoldable pub serialize_top_level_thread_groups_response : TopLevelThreadGroupsResponse → Write
serialize_top_level_thread_groups_response c = do
  write_int (pos (length c.groups))
  for_each c.groups write_thread_group_id

unfoldable pub deserialize_top_level_thread_groups_response : Read TopLevelThreadGroupsResponse
deserialize_top_level_thread_groups_response = do
  num ← read_int
  groups ← read_list num read_thread_group_id
  return (record { groups = groups })

abbrev pub IsTopLevelThreadGroupsResponse :
    Platform → IdSizesSpec → TopLevelThreadGroupsResponse → Type 0
IsTopLevelThreadGroupsResponse p s c =
    IsInt (pos (length c.groups)) × All (λ x. IsId s.object_id_struct x) c.groups

pub RoundTrip-top_level_thread_groups_response :
    {p : Platform} {s : IdSizesSpec} {c : TopLevelThreadGroupsResponse}
    → IsTopLevelThreadGroupsResponse p s c
    → RoundTrip p s
        (serialize_top_level_thread_groups_response c)
        deserialize_top_level_thread_groups_response
        c
unfolding serialize_top_level_thread_groups_response deserialize_top_level_thread_groups_response
RoundTrip-top_level_thread_groups_response {s = s} {c = c} h = RoundTrip-seq _ (RoundTrip-int h.0) (
    RoundTrip-last _ (
      RoundTrip-All write_thread_group_id read_thread_group_id (λ x. IsId s.object_id_struct x)
        c.groups (λ x h. RoundTrip-object_id h) h.1))

pub data TopLevelThreadGroupsCommand : Type 0 where
  top_level_thread_groups_command : TopLevelThreadGroupsCommand

unfoldable pub serialize_top_level_thread_groups_command : TopLevelThreadGroupsCommand → Write
serialize_top_level_thread_groups_command _ = skip

unfoldable pub deserialize_top_level_thread_groups_command : Read TopLevelThreadGroupsCommand
deserialize_top_level_thread_groups_command = return top_level_thread_groups_command

pub RoundTrip-top_level_thread_groups_command :
    {p : Platform} {s : IdSizesSpec} (c : TopLevelThreadGroupsCommand)
    → RoundTrip p s
        (serialize_top_level_thread_groups_command c)
        deserialize_top_level_thread_groups_command
        c
unfolding serialize_top_level_thread_groups_command deserialize_top_level_thread_groups_command
RoundTrip-top_level_thread_groups_command top_level_thread_groups_command =
    RoundTrip-return top_level_thread_groups_command

pub data SuspendResponse : Type 0 where
  suspend_response : SuspendResponse

unfoldable pub serialize_suspend_response : SuspendResponse → Write
serialize_suspend_response _ = skip

unfoldable pub deserialize_suspend_response : Read SuspendResponse
deserialize_suspend_response = return suspend_response

pub RoundTrip-suspend_response :
    {p : Platform} {s : IdSizesSpec} (c : SuspendResponse)
    → RoundTrip p s (serialize_suspend_response c) deserialize_suspend_response c
unfolding serialize_suspend_response deserialize_suspend_response
RoundTrip-suspend_response suspend_response = RoundTrip-return suspend_response

pub data SuspendCommand : Type 0 where
  suspend_command : SuspendCommand

unfoldable pub serialize_suspend_command : SuspendCommand → Write
serialize_suspend_command _ = skip

unfoldable pub deserialize_suspend_command : Read SuspendCommand
deserialize_suspend_command = return suspend_command

pub RoundTrip-suspend_command :
    {p : Platform} {s : IdSizesSpec} (c : SuspendCommand)
    → RoundTrip p s (serialize_suspend_command c) deserialize_suspend_command c
unfolding serialize_suspend_command deserialize_suspend_command
RoundTrip-suspend_command suspend_command = RoundTrip-return suspend_command

pub data ResumeResponse : Type 0 where
  resume_response : ResumeResponse

unfoldable pub serialize_resume_response : ResumeResponse → Write
serialize_resume_response _ = skip

unfoldable pub deserialize_resume_response : Read ResumeResponse
deserialize_resume_response = return resume_response

pub RoundTrip-resume_response :
    {p : Platform} {s : IdSizesSpec} (c : ResumeResponse)
    → RoundTrip p s (serialize_resume_response c) deserialize_resume_response c
unfolding serialize_resume_response deserialize_resume_response
RoundTrip-resume_response resume_response = RoundTrip-return resume_response

pub data ResumeCommand : Type 0 where
  resume_command : ResumeCommand

unfoldable pub serialize_resume_command : ResumeCommand → Write
serialize_resume_command _ = skip

unfoldable pub deserialize_resume_command : Read ResumeCommand
deserialize_resume_command = return resume_command

pub RoundTrip-resume_command :
    {p : Platform} {s : IdSizesSpec} (c : ResumeCommand)
    → RoundTrip p s (serialize_resume_command c) deserialize_resume_command c
unfolding serialize_resume_command deserialize_resume_command
RoundTrip-resume_command resume_command = RoundTrip-return resume_command
