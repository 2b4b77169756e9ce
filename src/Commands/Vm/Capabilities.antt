-- ===== src/Commands/Vm/Capabilities.antt =====
-- src/jdwpy/commands/vm.py: Capabilities.
use jdwpy.Prelude.{Bool}
use jdwpy.Spec.{IdSizesSpec}
use jdwpy.Io.{Platform, Read, Write, return, skip, ◌>>=◌, ◌>>◌}
use jdwpy.Io.Reader.{read_boolean}
use jdwpy.Io.Writer.{write_boolean}
use jdwpy.Io.Codec.{RoundTrip, RoundTrip-last, RoundTrip-return, RoundTrip-seq}
use jdwpy.Io.Primitives.{RoundTrip-boolean}

pub record CapabilitiesResponse : Type 0 where
  pub can_watch_field_modification : Bool
  pub can_watch_field_access : Bool
  pub can_get_bytecodes : Bool
  pub can_get_synthetic_attribute : Bool
  pub can_get_owned_monitor_info : Bool
  pub can_get_current_contended_monitor : Bool
  pub can_get_monitor_info : Bool

unfoldable pub serialize_capabilities_response : CapabilitiesResponse → Write
serialize_capabilities_response c = do
  write_boolean c.can_watch_field_modification
  write_boolean c.can_watch_field_access
  write_boolean c.can_get_bytecodes
  write_boolean c.can_get_synthetic_attribute
  write_boolean c.can_get_owned_monitor_info
  write_boolean c.can_get_current_contended_monitor
  write_boolean c.can_get_monitor_info

unfoldable pub deserialize_capabilities_response : Read CapabilitiesResponse
deserialize_capabilities_response = do
  can_watch_field_modification ← read_boolean
  can_watch_field_access ← read_boolean
  can_get_bytecodes ← read_boolean
  can_get_synthetic_attribute ← read_boolean
  can_get_owned_monitor_info ← read_boolean
  can_get_current_contended_monitor ← read_boolean
  can_get_monitor_info ← read_boolean
  return (record {
    can_watch_field_modification = can_watch_field_modification;
    can_watch_field_access = can_watch_field_access;
    can_get_bytecodes = can_get_bytecodes;
    can_get_synthetic_attribute = can_get_synthetic_attribute;
    can_get_owned_monitor_info = can_get_owned_monitor_info;
    can_get_current_contended_monitor = can_get_current_contended_monitor;
    can_get_monitor_info = can_get_monitor_info;
  })

pub RoundTrip-capabilities_response :
    {p : Platform} {s : IdSizesSpec} {c : CapabilitiesResponse}
    → RoundTrip p s (serialize_capabilities_response c) deserialize_capabilities_response c
unfolding serialize_capabilities_response deserialize_capabilities_response
RoundTrip-capabilities_response = RoundTrip-seq _ RoundTrip-boolean (
    RoundTrip-seq _ RoundTrip-boolean (
      RoundTrip-seq _ RoundTrip-boolean (
        RoundTrip-seq _ RoundTrip-boolean (
          RoundTrip-seq _ RoundTrip-boolean
            (RoundTrip-seq _ RoundTrip-boolean (RoundTrip-last _ RoundTrip-boolean))))))

pub data CapabilitiesCommand : Type 0 where
  capabilities_command : CapabilitiesCommand

unfoldable pub serialize_capabilities_command : CapabilitiesCommand → Write
serialize_capabilities_command _ = skip

unfoldable pub deserialize_capabilities_command : Read CapabilitiesCommand
deserialize_capabilities_command = return capabilities_command

pub RoundTrip-capabilities_command :
    {p : Platform} {s : IdSizesSpec} (c : CapabilitiesCommand)
    → RoundTrip p s (serialize_capabilities_command c) deserialize_capabilities_command c
unfolding serialize_capabilities_command deserialize_capabilities_command
RoundTrip-capabilities_command capabilities_command = RoundTrip-return capabilities_command
