-- ===== src/Commands/ThreadReference/Stopping.antt =====
-- src/jdwpy/commands/thread_reference.py: Stop, Interrupt, SuspendCount, ForceEarlyReturn.
use jdwpy.Prelude.Int.{ℤ}
use jdwpy.Spec.{IdSizesSpec, JdwpValue}
use jdwpy.Io.{Platform, Read, Write, return, skip, ◌>>=◌, ◌>>◌}
use jdwpy.Io.Ranges.{IsId, IsInt}
use jdwpy.Io.Reader.{read_int, read_object_id, read_thread_id}
use jdwpy.Io.Writer.{write_int, write_object_id, write_thread_id}
use jdwpy.Io.Values.{read_value, write_value}
use jdwpy.Io.Codec.{RoundTrip, RoundTrip-last, RoundTrip-return, RoundTrip-seq}
use jdwpy.Io.Primitives.{RoundTrip-int, RoundTrip-object_id}
use jdwpy.Io.Fields.{IsValue, RoundTrip-value}

pub data StopResponse : Type 0 where
  stop_response : StopResponse

unfoldable pub serialize_stop_response : StopResponse → Write
serialize_stop_response _ = skip

unfoldable pub deserialize_stop_response : Read StopResponse
deserialize_stop_response = return stop_response

pub RoundTrip-stop_response :
    {p : Platform} {s : IdSizesSpec} (c : StopResponse)
    → RoundTrip p s (serialize_stop_response c) deserialize_stop_response c
unfolding serialize_stop_response deserialize_stop_response
RoundTrip-stop_response stop_response = RoundTrip-return stop_response

pub record StopCommand : Type 0 where
  pub thread : ℤ
  pub throwable : ℤ

unfoldable pub serialize_stop_command : StopCommand → Write
serialize_stop_command c = do write_thread_id c.thread; write_object_id c.throwable

unfoldable pub deserialize_stop_command : Read StopCommand
deserialize_stop_command = do
  thread ← read_thread_id
  throwable ← read_object_id
  return (record { thread = thread; throwable = throwable })

abbrev pub IsStopCommand : Platform → IdSizesSpec → StopCommand → Type 0
IsStopCommand p s c = IsId s.object_id_struct c.thread × IsId s.object_id_struct c.throwable

pub RoundTrip-stop_command :
    {p : Platform} {s : IdSizesSpec} {c : StopCommand}
    → IsStopCommand p s c
    → RoundTrip p s (serialize_stop_command c) deserialize_stop_command c
unfolding serialize_stop_command deserialize_stop_command
RoundTrip-stop_command h =
    RoundTrip-seq _ (RoundTrip-object_id h.0) (RoundTrip-last _ (RoundTrip-object_id h.1))

pub data InterruptResponse : Type 0 where
  interrupt_response : InterruptResponse

unfoldable pub serialize_interrupt_response : InterruptResponse → Write
serialize_interrupt_response _ = skip

unfoldable pub deserialize_interrupt_response : Read InterruptResponse
deserialize_interrupt_response = return interrupt_response

pub RoundTrip-interrupt_response :
    {p : Platform} {s : IdSizesSpec} (c : InterruptResponse)
    → RoundTrip p s (serialize_interrupt_response c) deserialize_interrupt_response c
unfolding serialize_interrupt_response deserialize_interrupt_response
RoundTrip-interrupt_response interrupt_response = RoundTrip-return interrupt_response

pub record InterruptCommand : Type 0 where
  pub thread : ℤ

unfoldable pub serialize_interrupt_command : InterruptCommand → Write
serialize_interrupt_command c = write_thread_id c.thread

unfoldable pub deserialize_interrupt_command : Read InterruptCommand
deserialize_interrupt_command = do thread ← read_thread_id; return (record { thread = thread })

abbrev pub IsInterruptCommand : Platform → IdSizesSpec → InterruptCommand → Type 0
IsInterruptCommand p s c = IsId s.object_id_struct c.thread

pub RoundTrip-interrupt_command :
    {p : Platform} {s : IdSizesSpec} {c : InterruptCommand}
    → IsInterruptCommand p s c
    → RoundTrip p s (serialize_interrupt_command c) deserialize_interrupt_command c
unfolding serialize_interrupt_command deserialize_interrupt_command
RoundTrip-interrupt_command h = RoundTrip-last _ (RoundTrip-object_id h)

pub record SuspendCountResponse : Type 0 where
  pub suspend_count : ℤ

unfoldable pub serialize_suspend_count_response : SuspendCountResponse → Write
serialize_suspend_count_response c = write_int c.suspend_count

unfoldable pub deserialize_suspend_count_response : Read SuspendCountResponse
deserialize_suspend_count_response = do
  suspend_count ← read_int
  return (record { suspend_count = suspend_count })

abbrev pub IsSuspendCountResponse : Platform → IdSizesSpec → SuspendCountResponse → Type 0
IsSuspendCountResponse p s c = IsInt c.suspend_count

pub RoundTrip-suspend_count_response :
    {p : Platform} {s : IdSizesSpec} {c : SuspendCountResponse}
    → IsSuspendCountResponse p s c
    → RoundTrip p s (serialize_suspend_count_response c) deserialize_suspend_count_response c
unfolding serialize_suspend_count_response deserialize_suspend_count_response
RoundTrip-suspend_count_response h = RoundTrip-last _ (RoundTrip-int h)

pub record SuspendCountCommand : Type 0 where
  pub thread : ℤ

unfoldable pub serialize_suspend_count_command : SuspendCountCommand → Write
serialize_suspend_count_command c = write_thread_id c.thread

unfoldable pub deserialize_suspend_count_command : Read SuspendCountCommand
deserialize_suspend_count_command = do thread ← read_thread_id; return (record { thread = thread })

abbrev pub IsSuspendCountCommand : Platform → IdSizesSpec → SuspendCountCommand → Type 0
IsSuspendCountCommand p s c = IsId s.object_id_struct c.thread

pub RoundTrip-suspend_count_command :
    {p : Platform} {s : IdSizesSpec} {c : SuspendCountCommand}
    → IsSuspendCountCommand p s c
    → RoundTrip p s (serialize_suspend_count_command c) deserialize_suspend_count_command c
unfolding serialize_suspend_count_command deserialize_suspend_count_command
RoundTrip-suspend_count_command h = RoundTrip-last _ (RoundTrip-object_id h)

pub data ForceEarlyReturnResponse : Type 0 where
  force_early_return_response : ForceEarlyReturnResponse

unfoldable pub serialize_force_early_return_response : ForceEarlyReturnResponse → Write
serialize_force_early_return_response _ = skip

unfoldable pub deserialize_force_early_return_response : Read ForceEarlyReturnResponse
deserialize_force_early_return_response = return force_early_return_response

pub RoundTrip-force_early_return_response :
    {p : Platform} {s : IdSizesSpec} (c : ForceEarlyReturnResponse)
    → RoundTrip p s
        (serialize_force_early_return_response c)
        deserialize_force_early_return_response
        c
unfolding serialize_force_early_return_response deserialize_force_early_return_response
RoundTrip-force_early_return_response force_early_return_response =
    RoundTrip-return force_early_return_response

pub record ForceEarlyReturnCommand : Type 0 where
  pub thread : ℤ
  pub value : JdwpValue

unfoldable pub serialize_force_early_return_command : ForceEarlyReturnCommand → Write
serialize_force_early_return_command c = do write_thread_id c.thread; write_value c.value

unfoldable pub deserialize_force_early_return_command : Read ForceEarlyReturnCommand
deserialize_force_early_return_command = do
  thread ← read_thread_id
  value ← read_value
  return (record { thread = thread; value = value })

abbrev pub IsForceEarlyReturnCommand : Platform → IdSizesSpec → ForceEarlyReturnCommand → Type 0
IsForceEarlyReturnCommand p s c = IsId s.object_id_struct c.thread × IsValue p s c.value

pub RoundTrip-force_early_return_command :
    {p : Platform} {s : IdSizesSpec} {c : ForceEarlyReturnCommand}
    → IsForceEarlyReturnCommand p s c
    → RoundTrip p s
        (serialize_force_early_return_command c)
        deserialize_force_early_return_command
        c
unfolding serialize_force_early_return_command deserialize_force_early_return_command
RoundTrip-force_early_return_command h =
    RoundTrip-seq _ (RoundTrip-object_id h.0) (RoundTrip-last _ (RoundTrip-value h.1))
