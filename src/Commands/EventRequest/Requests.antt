-- ===== src/Commands/EventRequest/Requests.antt =====
-- src/jdwpy/commands/event_request.py: Set, Clear, ClearAllBreakpoints.
use jdwpy.Prelude.{All, List, length}
use jdwpy.Prelude.Int.{pos, ℤ}
use jdwpy.Constants.EventKind.{JdwpEventKind}
use jdwpy.Constants.Policies.{JdwpSuspendPolicy}
use jdwpy.Spec.{IdSizesSpec}
use jdwpy.Io.{Platform, Read, Write, for_each, read_list, return, skip, ◌>>=◌, ◌>>◌}
use jdwpy.Io.Ranges.{IsInt}
use jdwpy.Io.Reader.{read_int}
use jdwpy.Io.Writer.{write_int}
use jdwpy.Io.Codec.{RoundTrip, RoundTrip-All, RoundTrip-last, RoundTrip-return, RoundTrip-seq}
use jdwpy.Io.Primitives.{RoundTrip-int}
use jdwpy.Commands.Members.{
  RoundTrip-event_kind, RoundTrip-suspend_policy, read_event_kind, read_suspend_policy,
  write_event_kind, write_suspend_policy,
}
use jdwpy.Commands.EventRequest.Modifiers.{
  EventModifier, IsAnyModifier, RoundTrip-modifier, deserialize_modifier, serialize_modifier,
}

pub record SetResponse : Type 0 where
  pub request_id : ℤ

unfoldable pub serialize_set_response : SetResponse → Write
serialize_set_response c = write_int c.request_id

unfoldable pub deserialize_set_response : Read SetResponse
deserialize_set_response = do request_id ← read_int; return (record { request_id = request_id })

abbrev pub IsSetResponse : Platform → IdSizesSpec → SetResponse → Type 0
IsSetResponse p s c = IsInt c.request_id

pub RoundTrip-set_response :
    {p : Platform} {s : IdSizesSpec} {c : SetResponse}
    → IsSetResponse p s c
    → RoundTrip p s (serialize_set_response c) deserialize_set_response c
unfolding serialize_set_response deserialize_set_response
RoundTrip-set_response h = RoundTrip-last _ (RoundTrip-int h)

pub record SetCommand : Type 0 where
  pub event_kind : JdwpEventKind
  pub suspend_policy : JdwpSuspendPolicy
  pub modifiers : List EventModifier

unfoldable pub serialize_set_command : SetCommand → Write
serialize_set_command c = do
  write_event_kind c.event_kind
  write_suspend_policy c.suspend_policy
  write_int (pos (length c.modifiers))
  for_each c.modifiers serialize_modifier

unfoldable pub deserialize_set_command : Read SetCommand
deserialize_set_command = do
  event_kind ← read_event_kind
  suspend_policy ← read_suspend_policy
  num_modifiers ← read_int
  modifiers ← read_list num_modifiers deserialize_modifier
  return
      (record { event_kind = event_kind; suspend_policy = suspend_policy; modifiers = modifiers })

abbrev pub IsSetCommand : Platform → IdSizesSpec → SetCommand → Type 0
IsSetCommand p s c = IsInt (pos (length c.modifiers)) × All (IsAnyModifier p s) c.modifiers

pub RoundTrip-set_command :
    {p : Platform} {s : IdSizesSpec} {c : SetCommand}
    → IsSetCommand p s c
    → RoundTrip p s (serialize_set_command c) deserialize_set_command c
unfolding serialize_set_command deserialize_set_command
RoundTrip-set_command {p = p} {s = s} {c = c} h = RoundTrip-seq _ RoundTrip-event_kind (
    RoundTrip-seq _ RoundTrip-suspend_policy (
      RoundTrip-seq _ (RoundTrip-int h.0) (
        RoundTrip-last _ (
          RoundTrip-All serialize_modifier deserialize_modifier (IsAnyModifier p s) c.modifiers
            (λ x h. RoundTrip-modifier h) h.1))))

pub data ClearResponse : Type 0 where
  clear_response : ClearResponse

unfoldable pub serialize_clear_response : ClearResponse → Write
serialize_clear_response _ = skip

unfoldable pub deserialize_clear_response : Read ClearResponse
deserialize_clear_response = return clear_response

pub RoundTrip-clear_response :
    {p : Platform} {s : IdSizesSpec} (c : ClearResponse)
    → RoundTrip p s (serialize_clear_response c) deserialize_clear_response c
unfolding serialize_clear_response deserialize_clear_response
RoundTrip-clear_response clear_response = RoundTrip-return clear_response

pub record ClearCommand : Type 0 where
  pub event_kind : JdwpEventKind
  pub request_id : ℤ

unfoldable pub serialize_clear_command : ClearCommand → Write
serialize_clear_command c = do write_event_kind c.event_kind; write_int c.request_id

unfoldable pub deserialize_clear_command : Read ClearCommand
deserialize_clear_command = do
  event_kind ← read_event_kind
  request_id ← read_int
  return (record { event_kind = event_kind; request_id = request_id })

abbrev pub IsClearCommand : Platform → IdSizesSpec → ClearCommand → Type 0
IsClearCommand p s c = IsInt c.request_id

pub RoundTrip-clear_command :
    {p : Platform} {s : IdSizesSpec} {c : ClearCommand}
    → IsClearCommand p s c
    → RoundTrip p s (serialize_clear_command c) deserialize_clear_command c
unfolding serialize_clear_command deserialize_clear_command
RoundTrip-clear_command h =
    RoundTrip-seq _ RoundTrip-event_kind (RoundTrip-last _ (RoundTrip-int h))

pub data ClearAllBreakpointsResponse : Type 0 where
  clear_all_breakpoints_response : ClearAllBreakpointsResponse

unfoldable pub serialize_clear_all_breakpoints_response : ClearAllBreakpointsResponse → Write
serialize_clear_all_breakpoints_response _ = skip

unfoldable pub deserialize_clear_all_breakpoints_response : Read ClearAllBreakpointsResponse
deserialize_clear_all_breakpoints_response = return clear_all_breakpoints_response

pub RoundTrip-clear_all_breakpoints_response :
    {p : Platform} {s : IdSizesSpec} (c : ClearAllBreakpointsResponse)
    → RoundTrip p s
        (serialize_clear_all_breakpoints_response c)
        deserialize_clear_all_breakpoints_response
        c
unfolding serialize_clear_all_breakpoints_response deserialize_clear_all_breakpoints_response
RoundTrip-clear_all_breakpoints_response clear_all_breakpoints_response =
    RoundTrip-return clear_all_breakpoints_response

pub data ClearAllBreakpointsCommand : Type 0 where
  clear_all_breakpoints_command : ClearAllBreakpointsCommand

unfoldable pub serialize_clear_all_breakpoints_command : ClearAllBreakpointsCommand → Write
serialize_clear_all_breakpoints_command _ = skip

unfoldable pub deserialize_clear_all_breakpoints_command : Read ClearAllBreakpointsCommand
deserialize_clear_all_breakpoints_command = return clear_all_breakpoints_command

pub RoundTrip-clear_all_breakpoints_command :
    {p : Platform} {s : IdSizesSpec} (c : ClearAllBreakpointsCommand)
    → RoundTrip p s
        (serialize_clear_all_breakpoints_command c)
        deserialize_clear_all_breakpoints_command
        c
unfolding serialize_clear_all_breakpoints_command deserialize_clear_all_breakpoints_command
RoundTrip-clear_all_breakpoints_command clear_all_breakpoints_command =
    RoundTrip-return clear_all_breakpoints_command
