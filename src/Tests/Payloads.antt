-- ===== src/Tests/Payloads.antt =====
-- Payloads of commands and replies.
use jdwpy.Prelude.{List, [], arith, refl, some, ℕ, ◌++◌, ◌∷◌, ◌≡◌, ◌≢◌}
use jdwpy.Prelude.Int.{negsuc, pos}
use jdwpy.Constants.EventKind.{JdwpEventKind}
use jdwpy.Constants.Policies.{all}
use jdwpy.Constants.Tag.{JdwpTag}
use jdwpy.Spec.{JdwpValue, default_spec}
use jdwpy.Io.Values.{read_value, write_value}
use jdwpy.Commands.Base.{Decodes, from_bytes, to_bytes}
use jdwpy.Commands.Event.Composite.{deserialize_composite_command, serialize_composite_command}
use jdwpy.Commands.EventRequest.Modifiers.{class_only, count}
use jdwpy.Commands.EventRequest.Requests.{
  SetCommand, deserialize_set_command, serialize_set_command,
}
use jdwpy.Commands.ArrayReference.Region.{JdwpArrayRegion}
use jdwpy.Commands.Vm.Info.{
  IdSizesResponse, deserialize_id_sizes_response, serialize_id_sizes_response,
}
use jdwpy.Commands.Registry.{lookup_class}
use jdwpy.Commands.Registry.Vm.{id_sizes_class}
use jdwpy.Commands.Registry.Event.{composite_class}
use jdwpy.Commands.Registry.Table.{
  get_command_class, get_command_class-Decodes, get_response_class-Decodes,
}
use jdwpy.Commands.Payloads.{composite_command-Decodes, set_command-Decodes, value-Decodes}
use jdwpy.Tests.Data.{one_breakpoint, one_breakpoint-IsCompositeCommand, upper_half}
use jdwpy.Commands.ArrayReference.SetValues.{
  SetValuesCommand, deserialize_set_values_command, serialize_set_values_command,
}
use jdwpy.Struct.{ok}
use jdwpy.Commands.ArrayReference.ElementTag.{set_values_command-Decodes, set_values_command-lost}
use jdwpy.Connection.Simple.Replies.{id_sizes_response_class}

composite_command-Decodes_example :
    Decodes upper_half default_spec
      (serialize_composite_command one_breakpoint)
      deserialize_composite_command
      one_breakpoint
composite_command-Decodes_example =
    composite_command-Decodes upper_half default_spec one_breakpoint
      one_breakpoint-IsCompositeCommand

composite_class-found : get_command_class (pos 64) (pos 100) ≡ some composite_class
unfolding get_command_class lookup_class
composite_class-found = refl

not_array_reference : pos 64 ≡ pos 13 → pos 100 ≢ pos 3
not_array_reference e f = cc

get_command_class-Decodes_example :
    Decodes upper_half default_spec
      (serialize_composite_command one_breakpoint)
      deserialize_composite_command
      one_breakpoint
    × (pos 64 ≡ pos 64)
    × (pos 100 ≡ pos 100)
get_command_class-Decodes_example =
    get_command_class-Decodes (pos 64) (pos 100) composite_class upper_half default_spec
      one_breakpoint composite_class-found not_array_reference one_breakpoint-IsCompositeCommand

abbrev sizes_of_four : IdSizesResponse
sizes_of_four = record {
  field_id_size = pos 4;
  method_id_size = pos 4;
  object_id_size = pos 4;
  reference_type_id_size = pos 4;
  frame_id_size = pos 4;
}

id_sizes_class-found : get_command_class (pos 1) (pos 7) ≡ some id_sizes_class
unfolding get_command_class lookup_class
id_sizes_class-found = refl

get_response_class-Decodes_example :
    Decodes upper_half default_spec
      (serialize_id_sizes_response sizes_of_four)
      deserialize_id_sizes_response
      sizes_of_four
get_response_class-Decodes_example =
    get_response_class-Decodes (pos 1) (pos 7) id_sizes_class id_sizes_response_class upper_half
      default_spec sizes_of_four id_sizes_class-found refl
      (omega arith, omega arith, omega arith, omega arith, omega arith)

-- Stop the second time that a method of one class starts.
abbrev second_entry : SetCommand
second_entry = record {
  event_kind = JdwpEventKind.method_entry;
  suspend_policy = all;
  modifiers = count (record { count = pos 2 }) ∷ class_only (record { clazz = pos 7 }) ∷ [];
}

set_command-Decodes_example :
    Decodes upper_half default_spec
      (serialize_set_command second_entry)
      deserialize_set_command
      second_entry
set_command-Decodes_example =
    set_command-Decodes upper_half default_spec second_entry
      (omega arith, (omega arith, (omega arith, tt)))

abbrev minus_two : JdwpValue
minus_two = record { tag = JdwpTag.short; value = negsuc 1 }

value-Decodes_example : Decodes upper_half default_spec (write_value minus_two) read_value minus_two
value-Decodes_example = value-Decodes upper_half default_spec minus_two (omega arith)

abbrev two_shorts : JdwpArrayRegion
two_shorts = record { tag = JdwpTag.short; values = minus_two ∷ minus_two ∷ [] }

-- The elements 0 and 1 of the array 5 of ints.
abbrev two_ints : SetValuesCommand
two_ints = record {
  array_object = pos 5;
  first_index = pos 0;
  tag = JdwpTag.int;
  values =
      record { tag = JdwpTag.int; value = pos 7 }
      ∷ record { tag = JdwpTag.int; value = negsuc 0 }
      ∷ [];
}

set_values_command-Decodes_example :
    Decodes upper_half default_spec
      (serialize_set_values_command two_ints)
      deserialize_set_values_command
      two_ints
set_values_command-Decodes_example =
    set_values_command-Decodes upper_half default_spec two_ints
      (
        omega arith,
        omega arith,
        omega arith,
        ((pos 7, omega arith, refl), ((negsuc 0, omega arith, refl), tt)),
      )
      refl

-- The same of an array of shorts.
abbrev set_shorts : SetValuesCommand
set_shorts = record {
  array_object = pos 5;
  first_index = pos 0;
  tag = JdwpTag.short;
  values = minus_two ∷ minus_two ∷ [];
}

short_is_not_int : JdwpTag.short ≢ JdwpTag.int
short_is_not_int e = cc

set_values_command-lost_example :
    (bytes : List ℕ) × (to_bytes upper_half default_spec (serialize_set_values_command set_shorts)
      ≡ ok bytes)
    × ((rest : List ℕ)
        → from_bytes upper_half default_spec deserialize_set_values_command (bytes ++ rest)
          ≢ ok set_shorts)
set_values_command-lost_example =
    set_values_command-lost upper_half default_spec set_shorts
      (
        omega arith,
        omega arith,
        omega arith,
        ((negsuc 1, omega arith, refl), ((negsuc 1, omega arith, refl), tt)),
      )
      short_is_not_int
