-- ===== src/Commands/Event/Composite.antt =====
-- src/jdwpy/commands/event.py: the Composite command.
use jdwpy.Prelude.{All, List, length}
use jdwpy.Prelude.Int.{pos}
use jdwpy.Constants.Policies.{JdwpSuspendPolicy}
use jdwpy.Spec.{IdSizesSpec}
use jdwpy.Io.{Platform, Read, Write, for_each, read_list, return, ◌>>=◌, ◌>>◌}
use jdwpy.Io.Ranges.{IsInt}
use jdwpy.Io.Reader.{read_int}
use jdwpy.Io.Writer.{write_int}
use jdwpy.Io.Codec.{RoundTrip, RoundTrip-All, RoundTrip-last, RoundTrip-seq}
use jdwpy.Io.Primitives.{RoundTrip-int}
use jdwpy.Commands.Members.{RoundTrip-suspend_policy, read_suspend_policy, write_suspend_policy}
use jdwpy.Commands.Event.Events.{
  IsAnyEvent, JdwpEvent, RoundTrip-event, deserialize_event, serialize_event,
}

pub record CompositeCommand : Type 0 where
  pub suspend_policy : JdwpSuspendPolicy
  pub events : List JdwpEvent

unfoldable pub serialize_composite_command : CompositeCommand → Write
serialize_composite_command c = do
  write_suspend_policy c.suspend_policy
  write_int (pos (length c.events))
  for_each c.events serialize_event

unfoldable pub deserialize_composite_command : Read CompositeCommand
deserialize_composite_command = do
  suspend_policy ← read_suspend_policy
  num_events ← read_int
  events ← read_list num_events deserialize_event
  return (record { suspend_policy = suspend_policy; events = events })

abbrev pub IsCompositeCommand : Platform → IdSizesSpec → CompositeCommand → Type 0
IsCompositeCommand p s c = IsInt (pos (length c.events)) × All (IsAnyEvent p s) c.events

pub RoundTrip-composite_command :
    {p : Platform} {s : IdSizesSpec} {c : CompositeCommand}
    → IsCompositeCommand p s c
    → RoundTrip p s (serialize_composite_command c) deserialize_composite_command c
unfolding serialize_composite_command deserialize_composite_command
RoundTrip-composite_command {p = p} {s = s} {c = c} h = RoundTrip-seq _ RoundTrip-suspend_policy (
    RoundTrip-seq _ (RoundTrip-int h.0) (
      RoundTrip-last _ (
        RoundTrip-All serialize_event deserialize_event (IsAnyEvent p s) c.events
          (λ x h. RoundTrip-event h) h.1)))
