-- ===== src/Commands/Vm/CapabilitiesNew.antt =====
-- src/jdwpy/commands/vm.py: CapabilitiesNew.
use jdwpy.Prelude.{Bool}
use jdwpy.Spec.{IdSizesSpec}
use jdwpy.Io.{Platform, Read, Write, return, skip, ◌>>=◌, ◌>>◌}
use jdwpy.Io.Reader.{read_boolean}
use jdwpy.Io.Writer.{write_boolean}
use jdwpy.Io.Codec.{RoundTrip, RoundTrip-last, RoundTrip-return, RoundTrip-seq}
use jdwpy.Io.Primitives.{RoundTrip-boolean}

pub record CapabilitiesNewResponse : Type 0 where
  pub can_watch_field_modification : Bool
  pub can_watch_field_access : Bool
  pub can_get_bytecodes : Bool
  pub can_get_synthetic_attribute : Bool
  pub can_get_owned_monitor_info : Bool
  pub can_get_current_contended_monitor : Bool
  pub can_get_monitor_info : Bool
  pub can_redefine_classes : Bool
  pub can_add_method : Bool
  pub can_unrestrictedly_redefine_classes : Bool
  pub can_pop_frames : Bool
  pub can_use_instance_filters : Bool
  pub can_get_source_debug_extension : Bool
  pub can_request_vm_death_event : Bool
  pub can_set_default_stratum : Bool
  pub can_get_instance_info : Bool
  pub can_request_monitor_events : Bool
  pub can_get_monitor_frame_info : Bool
  pub can_use_source_name_filters : Bool
  pub can_get_constant_pool : Bool
  pub can_force_early_return : Bool
  pub reserved22 : Bool
  pub reserved23 : Bool
  pub reserved24 : Bool
  pub reserved25 : Bool
  pub reserved26 : Bool
  pub reserved27 : Bool
  pub reserved28 : Bool
  pub reserved29 : Bool
  pub reserved30 : Bool
  pub reserved31 : Bool
  pub reserved32 : Bool

unfoldable pub serialize_capabilities_new_response : CapabilitiesNewResponse → Write
serialize_capabilities_new_response c = do
  write_boolean c.can_watch_field_modification
  write_boolean c.can_watch_field_access
  write_boolean c.can_get_bytecodes
  write_boolean c.can_get_synthetic_attribute
  write_boolean c.can_get_owned_monitor_info
  write_boolean c.can_get_current_contended_monitor
  write_boolean c.can_get_monitor_info
  write_boolean c.can_redefine_classes
  write_boolean c.can_add_method
  write_boolean c.can_unrestrictedly_redefine_classes
  write_boolean c.can_pop_frames
  write_boolean c.can_use_instance_filters
  write_boolean c.can_get_source_debug_extension
  write_boolean c.can_request_vm_death_event
  write_boolean c.can_set_default_stratum
  write_boolean c.can_get_instance_info
  write_boolean c.can_request_monitor_events
  write_boolean c.can_get_monitor_frame_info
  write_boolean c.can_use_source_name_filters
  write_boolean c.can_get_constant_pool
  write_boolean c.can_force_early_return
  write_boolean c.reserved22
  write_boolean c.reserved23
  write_boolean c.reserved24
  write_boolean c.reserved25
  write_boolean c.reserved26
  write_boolean c.reserved27
  write_boolean c.reserved28
  write_boolean c.reserved29
  write_boolean c.reserved30
  write_boolean c.reserved31
  write_boolean c.reserved32

unfoldable pub deserialize_capabilities_new_response : Read CapabilitiesNewResponse
deserialize_capabilities_new_response = do
  can_watch_field_modification ← read_boolean
  can_watch_field_access ← read_boolean
  can_get_bytecodes ← read_boolean
  can_get_synthetic_attribute ← read_boolean
  can_get_owned_monitor_info ← read_boolean
  can_get_current_contended_monitor ← read_boolean
  can_get_monitor_info ← read_boolean
  can_redefine_classes ← read_boolean
  can_add_method ← read_boolean
  can_unrestrictedly_redefine_classes ← read_boolean
  can_pop_frames ← read_boolean
  can_use_instance_filters ← read_boolean
  can_get_source_debug_extension ← read_boolean
  can_request_vm_death_event ← read_boolean
  can_set_default_stratum ← read_boolean
  can_get_instance_info ← read_boolean
  can_request_monitor_events ← read_boolean
  can_get_monitor_frame_info ← read_boolean
  can_use_source_name_filters ← read_boolean
  can_get_constant_pool ← read_boolean
  can_force_early_return ← read_boolean
  reserved22 ← read_boolean
  reserved23 ← read_boolean
  reserved24 ← read_boolean
  reserved25 ← read_boolean
  reserved26 ← read_boolean
  reserved27 ← read_boolean
  reserved28 ← read_boolean
  reserved29 ← read_boolean
  reserved30 ← read_boolean
  reserved31 ← read_boolean
  reserved32 ← read_boolean
  return (record {
    can_watch_field_modification = can_watch_field_modification;
    can_watch_field_access = can_watch_field_access;
    can_get_bytecodes = can_get_bytecodes;
    can_get_synthetic_attribute = can_get_synthetic_attribute;
    can_get_owned_monitor_info = can_get_owned_monitor_info;
    can_get_current_contended_monitor = can_get_current_contended_monitor;
    can_get_monitor_info = can_get_monitor_info;
    can_redefine_classes = can_redefine_classes;
    can_add_method = can_add_method;
    can_unrestrictedly_redefine_classes = can_unrestrictedly_redefine_classes;
    can_pop_frames = can_pop_frames;
    can_use_instance_filters = can_use_instance_filters;
    can_get_source_debug_extension = can_get_source_debug_extension;
    can_request_vm_death_event = can_request_vm_death_event;
    can_set_default_stratum = can_set_default_stratum;
    can_get_instance_info = can_get_instance_info;
    can_request_monitor_events = can_request_monitor_events;
    can_get_monitor_frame_info = can_get_monitor_frame_info;
    can_use_source_name_filters = can_use_source_name_filters;
    can_get_constant_pool = can_get_constant_pool;
    can_force_early_return = can_force_early_return;
    reserved22 = reserved22;
    reserved23 = reserved23;
    reserved24 = reserved24;
    reserved25 = reserved25;
    reserved26 = reserved26;
    reserved27 = reserved27;
    reserved28 = reserved28;
    reserved29 = reserved29;
    reserved30 = reserved30;
    reserved31 = reserved31;
    reserved32 = reserved32;
  })

pub RoundTrip-capabilities_new_response :
    {p : Platform} {s : IdSizesSpec} {c : CapabilitiesNewResponse}
    → RoundTrip p s (serialize_capabilities_new_response c) deserialize_capabilities_new_response c
unfolding serialize_capabilities_new_response deserialize_capabilities_new_response
RoundTrip-capabilities_new_response = RoundTrip-seq _ RoundTrip-boolean (
    RoundTrip-seq _ RoundTrip-boolean (
      RoundTrip-seq _ RoundTrip-boolean (
        RoundTrip-seq _ RoundTrip-boolean (
          RoundTrip-seq _ RoundTrip-boolean (
            RoundTrip-seq _ RoundTrip-boolean (
              RoundTrip-seq _ RoundTrip-boolean (
                RoundTrip-seq _ RoundTrip-boolean (
                  RoundTrip-seq _ RoundTrip-boolean (
                    RoundTrip-seq _ RoundTrip-boolean (
                      RoundTrip-seq _ RoundTrip-boolean (
                        RoundTrip-seq _ RoundTrip-boolean (
                          RoundTrip-seq _ RoundTrip-boolean (
                            RoundTrip-seq _ RoundTrip-boolean (
                              RoundTrip-seq _ RoundTrip-boolean (
                                RoundTrip-seq _ RoundTrip-boolean (
                                  RoundTrip-seq _ RoundTrip-boolean (
                                    RoundTrip-seq _ RoundTrip-boolean (
                                      RoundTrip-seq _ RoundTrip-boolean (
                                        RoundTrip-seq _ RoundTrip-boolean (
                                          RoundTrip-seq _ RoundTrip-boolean (
                                            RoundTrip-seq _ RoundTrip-boolean (
                                              RoundTrip-seq _ RoundTrip-boolean (
                                                RoundTrip-seq _ RoundTrip-boolean (
                                                  RoundTrip-seq _ RoundTrip-boolean (
                                                    RoundTrip-seq _ RoundTrip-boolean (
                                                      RoundTrip-seq _ RoundTrip-boolean (
                                                        RoundTrip-seq _ RoundTrip-boolean (
                                                          RoundTrip-seq _ RoundTrip-boolean (
                                                            RoundTrip-seq _ RoundTrip-boolean (
                                                            RoundTrip-seq _ RoundTrip-boolean (
                                                            RoundTrip-last _
                                                            RoundTrip-boolean)))))))))))))))))))))))))))))))

pub data CapabilitiesNewCommand : Type 0 where
  capabilities_new_command : CapabilitiesNewCommand

unfoldable pub serialize_capabilities_new_command : CapabilitiesNewCommand → Write
serialize_capabilities_new_command _ = skip

unfoldable pub deserialize_capabilities_new_command : Read CapabilitiesNewCommand
deserialize_capabilities_new_command = return capabilities_new_command

pub RoundTrip-capabilities_new_command :
    {p : Platform} {s : IdSizesSpec} (c : CapabilitiesNewCommand)
    → RoundTrip p s (serialize_capabilities_new_command c) deserialize_capabilities_new_command c
unfolding serialize_capabilities_new_command deserialize_capabilities_new_command
RoundTrip-capabilities_new_command capabilities_new_command =
    RoundTrip-return capabilities_new_command
