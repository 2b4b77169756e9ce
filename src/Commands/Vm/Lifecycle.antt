-- ===== src/Commands/Vm/Lifecycle.antt =====
-- src/jdwpy/commands/vm.py: Dispose, Exit, HoldEvents, ReleaseEvents.
use jdwpy.Prelude.Int.{ℤ}
use jdwpy.Spec.{IdSizesSpec}
use jdwpy.Io.{Platform, Read, Write, return, skip, ◌>>=◌}
use jdwpy.Io.Ranges.{IsInt}
use jdwpy.Io.Reader.{read_int}
use jdwpy.Io.Writer.{write_int}
use jdwpy.Io.Codec.{RoundTrip, RoundTrip-last, RoundTrip-return}
use jdwpy.Io.Primitives.{RoundTrip-int}

pub data DisposeResponse : Type 0 where
  dispose_response : DisposeResponse

unfoldable pub serialize_dispose_response : DisposeResponse → Write
serialize_dispose_response _ = skip

unfoldable pub deserialize_dispose_response : Read DisposeResponse
deserialize_dispose_response = return dispose_response

pub RoundTrip-dispose_response :
    {p : Platform} {s : IdSizesSpec} (c : DisposeResponse)
    → RoundTrip p s (serialize_dispose_response c) deserialize_dispose_response c
unfolding serialize_dispose_response deserialize_dispose_response
RoundTrip-dispose_response dispose_response = RoundTrip-return dispose_response

pub data DisposeCommand : Type 0 where
  dispose_command : DisposeCommand

unfoldable pub serialize_dispose_command : DisposeCommand → Write
serialize_dispose_command _ = skip

unfoldable pub deserialize_dispose_command : Read DisposeCommand
deserialize_dispose_command = return dispose_command

pub RoundTrip-dispose_command :
    {p : Platform} {s : IdSizesSpec} (c : DisposeCommand)
    → RoundTrip p s (serialize_dispose_command c) deserialize_dispose_command c
unfolding serialize_dispose_command deserialize_dispose_command
RoundTrip-dispose_command dispose_command = RoundTrip-return dispose_command

pub data ExitResponse : Type 0 where
  exit_response : ExitResponse

unfoldable pub serialize_exit_response : ExitResponse → Write
serialize_exit_response _ = skip

unfoldable pub deserialize_exit_response : Read ExitResponse
deserialize_exit_response = return exit_response

pub RoundTrip-exit_response :
    {p : Platform} {s : IdSizesSpec} (c : ExitResponse)
    → RoundTrip p s (serialize_exit_response c) deserialize_exit_response c
unfolding serialize_exit_response deserialize_exit_response
RoundTrip-exit_response exit_response = RoundTrip-return exit_response

pub record ExitCommand : Type 0 where
  pub exit_code : ℤ

unfoldable pub serialize_exit_command : ExitCommand → Write
serialize_exit_command c = write_int c.exit_code

unfoldable pub deserialize_exit_command : Read ExitCommand
deserialize_exit_command = do exit_code ← read_int; return (record { exit_code = exit_code })

abbrev pub IsExitCommand : Platform → IdSizesSpec → ExitCommand → Type 0
IsExitCommand p s c = IsInt c.exit_code

pub RoundTrip-exit_command :
    {p : Platform} {s : IdSizesSpec} {c : ExitCommand}
    → IsExitCommand p s c
    → RoundTrip p s (serialize_exit_command c) deserialize_exit_command c
unfolding serialize_exit_command deserialize_exit_command
RoundTrip-exit_command h = RoundTrip-last _ (RoundTrip-int h)

pub data HoldEventsResponse : Type 0 where
  hold_events_response : HoldEventsResponse

unfoldable pub serialize_hold_events_response : HoldEventsResponse → Write
serialize_hold_events_response _ = skip

unfoldable pub deserialize_hold_events_response : Read HoldEventsResponse
deserialize_hold_events_response = return hold_events_response

pub RoundTrip-hold_events_response :
    {p : Platform} {s : IdSizesSpec} (c : HoldEventsResponse)
    → RoundTrip p s (serialize_hold_events_response c) deserialize_hold_events_response c
unfolding serialize_hold_events_response deserialize_hold_events_response
RoundTrip-hold_events_response hold_events_response = RoundTrip-return hold_events_response

pub data HoldEventsCommand : Type 0 where
  hold_events_command : HoldEventsCommand

unfoldable pub serialize_hold_events_command : HoldEventsCommand → Write
serialize_hold_events_command _ = skip

unfoldable pub deserialize_hold_events_command : Read HoldEventsCommand
deserialize_hold_events_command = return hold_events_command

pub RoundTrip-hold_events_command :
    {p : Platform} {s : IdSizesSpec} (c : HoldEventsCommand)
    → RoundTrip p s (serialize_hold_events_command c) deserialize_hold_events_command c
unfolding serialize_hold_events_command deserialize_hold_events_command
RoundTrip-hold_events_command hold_events_command = RoundTrip-return hold_events_command

pub data ReleaseEventsResponse : Type 0 where
  release_events_response : ReleaseEventsResponse

unfoldable pub serialize_release_events_response : ReleaseEventsResponse → Write
serialize_release_events_response _ = skip

unfoldable pub deserialize_release_events_response : Read ReleaseEventsResponse
deserialize_release_events_response = return release_events_response

pub RoundTrip-release_events_response :
    {p : Platform} {s : IdSizesSpec} (c : ReleaseEventsResponse)
    → RoundTrip p s (serialize_release_events_response c) deserialize_release_events_response c
unfolding serialize_release_events_response deserialize_release_events_response
RoundTrip-release_events_response release_events_response = RoundTrip-return release_events_response

pub data ReleaseEventsCommand : Type 0 where
  release_events_command : ReleaseEventsCommand

unfoldable pub serialize_release_events_command : ReleaseEventsCommand → Write
serialize_release_events_command _ = skip

unfoldable pub deserialize_release_events_command : Read ReleaseEventsCommand
deserialize_release_events_command = return release_events_command

pub RoundTrip-release_events_command :
    {p : Platform} {s : IdSizesSpec} (c : ReleaseEventsCommand)
    → RoundTrip p s (serialize_release_events_command c) deserialize_release_events_command c
unfolding serialize_release_events_command deserialize_release_events_command
RoundTrip-release_events_command release_events_command = RoundTrip-return release_events_command
