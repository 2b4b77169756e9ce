-- ===== src/Tests/Data.antt =====
-- The data that the tests share: a platform, a breakpoint event, and two packets.
use jdwpy.Prelude.{[], ap, arith, refl, some, ◌*◌, ◌/◌, ◌∷◌, ◌≡◌}
use jdwpy.Prelude.Int.{pos}
use jdwpy.Struct.{big_endian, ok, pack_signed}
use jdwpy.Packet.{JdwpPacket, JdwpReplyPacket, command_packet}
use jdwpy.Constants.Policies.{event_thread}
use jdwpy.Constants.TypeTag.{class}
use jdwpy.Spec.{IdSizesSpec, default_spec, struct_32}
use jdwpy.Io.{Platform, ◌>>◌}
use jdwpy.Commands.Event.Events.{breakpoint, event_request_id}
use jdwpy.Commands.Event.Composite.{CompositeCommand, IsCompositeCommand}
use jdwpy.Commands.Base.{to_bytes}
use jdwpy.Io.Writer.{write_int}
use jdwpy.Commands.Vm.Info.{serialize_id_sizes_response}
use jdwpy.Proxy.Sizes.{sizes_of}

-- A conversion of floats that keeps the 32 bits in the upper half of the 64.
abbrev pub upper_half : Platform
upper_half = record {
  narrow = λ x. some (x / 4294967296);
  widen = λ b. b * 4294967296;
  narrow-widen = λ b _ h. ap some (omega arith);
  of_int = λ n. some 0;
  widen-lt = λ b h. omega arith;
}

-- IDSizes, as a debugger sends it.
abbrev pub id_sizes_packet : JdwpPacket
id_sizes_packet =
    command_packet
      (record { id = pos 1; flags = pos 0; payload = []; command_set = pos 1; command = pos 7 })

-- Its reply, with 4 bytes for each identifier.
abbrev pub id_sizes_reply : JdwpReplyPacket
id_sizes_reply = record {
  id = pos 1;
  flags = pos 0x80;
  payload = 0 ∷ 0 ∷ 0 ∷ 4 ∷ 0 ∷ 0 ∷ 0 ∷ 4 ∷ 0 ∷ 0 ∷ 0 ∷ 4 ∷ 0 ∷ 0 ∷ 0 ∷ 4 ∷ 0 ∷ 0 ∷ 0 ∷ 4 ∷ [];
  error_code = pos 0;
}

-- A breakpoint that thread 3 has hit.
abbrev pub one_breakpoint : CompositeCommand
one_breakpoint = record {
  suspend_policy = event_thread;
  events =
      breakpoint (record {
        request_id = pos 2;
        thread = pos 3;
        location = record { type_tag = class; class_id = pos 4; method_id = pos 5; index = pos 6 };
      })
      ∷ [];
}

pub one_breakpoint-IsCompositeCommand : IsCompositeCommand upper_half default_spec one_breakpoint
unfolding event_request_id
one_breakpoint-IsCompositeCommand =
    (omega arith, ((omega arith, (omega arith, (omega arith, omega arith, omega arith))), tt))

abbrev pub four_byte_spec : IdSizesSpec
four_byte_spec = record {
  field_id_struct = struct_32;
  method_id_struct = struct_32;
  object_id_struct = struct_32;
  reference_type_id_struct = struct_32;
  frame_id_struct = struct_32;
}

pub four_byte_payload :
    to_bytes upper_half default_spec (serialize_id_sizes_response (sizes_of four_byte_spec))
    ≡ ok id_sizes_reply.payload
unfolding to_bytes serialize_id_sizes_response write_int ◌>>◌ pack_signed big_endian
four_byte_payload = refl
