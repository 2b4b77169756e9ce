-- ===== src/Commands/Registry/Event.antt =====
-- The classes that src/jdwpy/commands/event.py registers.
use jdwpy.Prelude.{All, List, [], none, ◌∷◌}
use jdwpy.Constants.ErrorCode.{JdwpErrorCode}
use jdwpy.Commands.Event.Composite.{
  CompositeCommand, IsCompositeCommand, RoundTrip-composite_command, deserialize_composite_command,
  serialize_composite_command,
}
use jdwpy.Commands.Registry.{CommandClass, RoundTrips}

abbrev pub composite_class : CommandClass
composite_class = record {
  command_set = 64;
  command = 100;
  allowed_errors = JdwpErrorCode.none ∷ [];
  Instance = CompositeCommand;
  serialize = serialize_composite_command;
  deserialize = deserialize_composite_command;
  IsWritable = IsCompositeCommand;
  response = none;
}

abbrev pub event_classes : List CommandClass
event_classes = composite_class ∷ []

pub event_classes-RoundTrips : All RoundTrips event_classes
event_classes-RoundTrips = ((λ _ p s c h. RoundTrip-composite_command h, tt), tt)
