-- ===== src/Tests/Calls.antt =====
-- Calls of a SimpleJdwpConnection.
use jdwpy.Prelude.{[], ap, arith, false, length, refl, some, ◌<◌, ◌∷◌, ◌≡◌, ◌≢◌}
use jdwpy.Prelude.Int.{pos}
use jdwpy.Struct.{big_endian, ok, pack_signed}
use jdwpy.Utf8.{encode}
use jdwpy.Dict.{lookup}
use jdwpy.Spec.{default_spec}
use jdwpy.Io.{skip, ◌>>◌}
use jdwpy.Io.Writer.{write_int, write_string}
use jdwpy.Io.Ranges.{IsString}
use jdwpy.Commands.Base.{to_bytes}
use jdwpy.Commands.Vm.Info.{
  IsVersionResponse, VersionResponse, deserialize_version_response, id_sizes_command,
  serialize_id_sizes_command, serialize_version_response,
}
use jdwpy.Commands.Registry.{ResponseClass, lookup_class}
use jdwpy.Commands.Registry.Vm.{id_sizes_class, version_class}
use jdwpy.Commands.Registry.Table.{get_command_class}
use jdwpy.Packet.{JdwpReplyPacket}
use jdwpy.Connection.{
  begin_send, cancelled_error, check, close, fail_receive, receive_reply, result, waiting,
}
use jdwpy.Connection.Simple.{
  SimpleJdwpConnection, SimpleReach, after, begin_call, called, created, finish_command, new_packet,
  new_simple, response, start, start_command,
}
use jdwpy.Connection.Simple.Delivery.{
  fail_receive-answers, receive_reply-answers, start_command-called,
}
use jdwpy.Connection.Simple.Replies.{
  finish_command-id_sizes, finish_command-response, id_sizes_response_class,
}
use jdwpy.Proxy.Sizes.{sizes_of}
use jdwpy.Tests.Data.{four_byte_payload, four_byte_spec, id_sizes_reply, upper_half}

-- The state after `send_command` with IDSizes on a new connection, up to the `await` of the reply.
abbrev asking : SimpleJdwpConnection
asking = (start_command upper_half id_sizes_class id_sizes_command new_simple).1

SimpleReach-asking : SimpleReach upper_half asking
SimpleReach-asking = after created (start id_sizes_class id_sizes_command)

open_connection : check new_simple.packet_conn.state ≡ ok tt
unfolding check
open_connection = refl

id_sizes-written :
    to_bytes upper_half default_spec (serialize_id_sizes_command id_sizes_command) ≡ ok []
unfolding to_bytes serialize_id_sizes_command skip
id_sizes-written = refl

start_command-called_example :
    (conn' : SimpleJdwpConnection) × (start_command upper_half id_sizes_class id_sizes_command
        new_simple
      ≡ (called (new_packet id_sizes_class 1 []), conn'))
    × (lookup (pos 1) conn'.packet_conn.pending_replies ≡ some 0)
    × (conn'.packet_conn.outcome 0 ≡ waiting)
    × (conn'.next_packet_id ≡ 2)
start_command-called_example =
    start_command-called new_simple created id_sizes_class id_sizes_command id_sizes_response_class
      [] open_connection id_sizes-written refl

asking-waits :
    (0 < asking.packet_conn.next_future)
    × (asking.packet_conn.finished 0 ≡ false)
    × (asking.packet_conn.outcome 0 ≡ waiting)
    × (pos 1 ≡ asking.packet_conn.request_id 0)
unfolding start_command begin_call begin_send to_bytes serialize_id_sizes_command skip check lookup
asking-waits = (omega arith, refl, refl, refl)

receive_reply-answers_example :
    ((receive_reply id_sizes_reply asking.packet_conn).outcome 0 ≡ result id_sizes_reply)
    × ((receive_reply id_sizes_reply asking.packet_conn).outcome 1 ≡ asking.packet_conn.outcome 1)
receive_reply-answers_example =
    receive_reply-answers asking SimpleReach-asking 0 1 id_sizes_reply asking-waits.0 asking-waits.1
      asking-waits.2 asking-waits.3 (omega arith)

fail_receive-answers_example :
    ((fail_receive cancelled_error asking.packet_conn).outcome 0 ≢ waiting)
    × ((close asking.packet_conn).outcome 0 ≢ waiting)
fail_receive-answers_example =
    fail_receive-answers asking SimpleReach-asking cancelled_error 0 asking-waits.0 asking-waits.1

version_class-found : get_command_class (pos 1) (pos 1) ≡ some version_class
unfolding get_command_class lookup_class
version_class-found = refl

abbrev version_response_class : ResponseClass
version_response_class = record {
  Instance = VersionResponse;
  serialize = serialize_version_response;
  deserialize = deserialize_version_response;
  IsWritable = IsVersionResponse;
}

-- Version 1.8 of the protocol, with no names.
abbrev one_eight : VersionResponse
one_eight = record {
  description = [];
  jdwp_major = pos 1;
  jdwp_minor = pos 8;
  vm_version = [];
  vm_name = [];
}

encode-nil : encode [] ≡ ok []
unfolding encode
encode-nil = refl

nil-IsString : IsString []
nil-IsString = record {
  is_text = tt;
  short = λ bytes e. let same : bytes ≡ [] = cc (e, encode-nil) in omega (arith, ap length same);
}

abbrev version_reply : JdwpReplyPacket
version_reply = record {
  id = pos 1;
  flags = pos 0x80;
  payload = 0 ∷ 0 ∷ 0 ∷ 0 ∷ 0 ∷ 0 ∷ 0 ∷ 1 ∷ 0 ∷ 0 ∷ 0 ∷ 8 ∷ 0 ∷ 0 ∷ 0 ∷ 0 ∷ 0 ∷ 0 ∷ 0 ∷ 0 ∷ [];
  error_code = pos 0;
}

one_eight-written :
    to_bytes upper_half default_spec (serialize_version_response one_eight)
    ≡ ok version_reply.payload
unfolding to_bytes serialize_version_response write_int ◌>>◌ write_string encode pack_signed
    big_endian
one_eight-written = refl

finish_command-response_example :
    finish_command upper_half version_class version_response_class version_reply new_simple
    ≡ (response one_eight, new_simple)
finish_command-response_example =
    finish_command-response upper_half (pos 1) (pos 1) version_class version_response_class
      version_reply new_simple one_eight version_class-found refl refl
      (nil-IsString, omega arith, omega arith, nil-IsString, nil-IsString) refl one_eight-written

finish_command-id_sizes_example :
    finish_command upper_half id_sizes_class id_sizes_response_class id_sizes_reply new_simple
    ≡ (response (sizes_of four_byte_spec), record new_simple { spec = four_byte_spec })
finish_command-id_sizes_example =
    finish_command-id_sizes upper_half id_sizes_reply new_simple four_byte_spec refl
      four_byte_payload
