-- ===== src/Proxy.antt =====
-- src/jdwpy/proxy.py: JdwpProxySession. A handler is a function on the session, taken as one step although
-- it awaits its sender. `vm_sent` and `dbg_sent` are the packets that the senders were given, in order. The
-- log changes nothing of the session and is not modelled. The sender to the debugger and its log are taken
-- not to raise; for the sender to the VM both cases are there.
pub mod Forwarding
pub mod Sizes
use jdwpy.Prelude.{Bool, List, [], false, if◌then◌else◌, none, some, true, ◌&&◌, ◌++◌, ◌∷◌}
use jdwpy.Prelude.Int.{pos, ℤ, ◌==ℤ◌}
use jdwpy.Struct.{Result, err, ok}
use jdwpy.Spec.{IdSizesSpec, create, default_spec}
use jdwpy.Io.{Platform}
use jdwpy.Commands.Base.{from_bytes}
use jdwpy.Commands.Vm.Info.{IdSizesResponse, deserialize_id_sizes_response}
use jdwpy.Dict.{Dict, insert, lookup, remove}
use jdwpy.Packet.{JdwpCommandPacket, JdwpPacket, JdwpReplyPacket, command_packet, reply_packet}

pub record JdwpProxySession : Type 0 where
  pub spec : IdSizesSpec
  pub idsizes_cmd_ids : Dict (Unit {0})
  pub outstanding_commands : Dict (ℤ × ℤ)
  pub vm_sent : List JdwpPacket
  pub dbg_sent : List JdwpPacket
  pub close_event : Bool

-- `__init__`
abbrev pub new_session : JdwpProxySession
new_session = record {
  spec = default_spec;
  idsizes_cmd_ids = [];
  outstanding_commands = [];
  vm_sent = [];
  dbg_sent = [];
  close_event = false;
}

-- `command_set == 1 and command == 7`: VirtualMachine.IDSizes.
abbrev pub is_id_sizes : JdwpCommandPacket → Bool
is_id_sizes packet = packet.command_set ==ℤ pos 1 && packet.command ==ℤ pos 7

-- What the session keeps of a command that goes to the VM.
unfoldable pub note_command : JdwpCommandPacket → JdwpProxySession → JdwpProxySession
unfolding insert
note_command packet session = record session {
  outstanding_commands =
      insert packet.id (packet.command_set, packet.command) session.outstanding_commands;
  idsizes_cmd_ids =
      if is_id_sizes packet
      then insert packet.id tt session.idsizes_cmd_ids
      else session.idsizes_cmd_ids;
}

abbrev pub send_to_vm : JdwpPacket → JdwpProxySession → JdwpProxySession
send_to_vm packet session = record session { vm_sent = session.vm_sent ++ packet ∷ [] }

abbrev pub send_to_debugger : JdwpPacket → JdwpProxySession → JdwpProxySession
send_to_debugger packet session = record session { dbg_sent = session.dbg_sent ++ packet ∷ [] }

-- `_handle_debugger_packet`, where no call raises.
unfoldable pub handle_debugger_packet : JdwpPacket → JdwpProxySession → JdwpProxySession
unfolding note_command
handle_debugger_packet (command_packet c) session =
    send_to_vm (command_packet c) (note_command c session)
handle_debugger_packet (reply_packet r) session = send_to_vm (reply_packet r) session

-- `IdSizesSpec.from_response`
unfoldable pub from_response : IdSizesResponse → Result IdSizesSpec
unfolding create
from_response r =
    create r.field_id_size r.method_id_size r.object_id_size r.reference_type_id_size
      r.frame_id_size

-- The spec that a reply to IDSizes makes.
unfoldable pub read_spec : Platform → IdSizesSpec → JdwpReplyPacket → Result IdSizesSpec
unfolding from_response
read_spec p s packet = elim (from_bytes p s deserialize_id_sizes_response packet.payload) [
  | ok r ↦ from_response r
  | err e ↦ err e
]

-- A handler that raised: what it changed before stays.
pub data Handled : Type 0 where
  done raised : JdwpProxySession → Handled

-- The part of `_handle_vm_packet` before the packet is sent.
unfoldable pub intercept : Platform → JdwpReplyPacket → JdwpProxySession → Handled
unfolding read_spec lookup remove
intercept p packet session = elim (lookup packet.id session.idsizes_cmd_ids) [
  | none ↦ done session
  | some _ ↦
      if packet.error_code ==ℤ pos 0
      then (elim (read_spec p session.spec packet) [
        | ok s ↦ done (record session {
          idsizes_cmd_ids = remove packet.id session.idsizes_cmd_ids;
          spec = s;
        })
        | err e ↦
            raised (record session { idsizes_cmd_ids = remove packet.id session.idsizes_cmd_ids })
      ])
      else done (record session { idsizes_cmd_ids = remove packet.id session.idsizes_cmd_ids })
]

-- The part after `_log_packet`.
unfoldable pub forget_command : JdwpPacket → JdwpProxySession → JdwpProxySession
unfolding remove
forget_command (command_packet c) session = session
forget_command (reply_packet r) session = record session {
  outstanding_commands = remove r.id session.outstanding_commands;
}

abbrev pub and_then : (JdwpProxySession → JdwpProxySession) → Handled → Handled
and_then f (done session) = done (f session)
and_then f (raised session) = raised session

-- `_handle_vm_packet`
unfoldable pub handle_vm_packet : Platform → JdwpPacket → JdwpProxySession → Handled
unfolding intercept forget_command
handle_vm_packet p (command_packet c) session = done (send_to_debugger (command_packet c) session)
handle_vm_packet p (reply_packet r) session =
    and_then (λ s. forget_command (reply_packet r) (send_to_debugger (reply_packet r) s))
      (intercept p r session)

-- `_handle_vm_exception` and `_handle_debugger_exception`: the session ends.
abbrev pub handle_exception : JdwpProxySession → JdwpProxySession
handle_exception session = record session { close_event = true }

-- `_run_vm_loop` on the packets that come: an exception of the handler ends the session.
unfoldable pub run_vm_loop : Platform → List JdwpPacket → JdwpProxySession → JdwpProxySession
unfolding handle_vm_packet
run_vm_loop p [] session = session
run_vm_loop p (packet ∷ rest) session = elim session.close_event [
  | true ↦ session
  | false ↦ elim (handle_vm_packet p packet session) [
    | done s ↦ run_vm_loop p rest s
    | raised s ↦ handle_exception s
  ]
]

-- How the calls that `_handle_debugger_packet` makes end: the sender to the VM, then the log's callback.
pub data Turn : Type 0 where
  passes send_fails log_fails : Turn

-- `_handle_debugger_packet`, with the calls that raise.
unfoldable pub attempt_debugger_packet : Turn → JdwpPacket → JdwpProxySession → Handled
unfolding handle_debugger_packet note_command
attempt_debugger_packet passes packet session = done (handle_debugger_packet packet session)
attempt_debugger_packet log_fails packet session = raised (handle_debugger_packet packet session)
attempt_debugger_packet send_fails (command_packet c) session = raised (note_command c session)
attempt_debugger_packet send_fails (reply_packet r) session = raised session

-- `_run_dbg_loop` on the packets that come: an exception of the handler ends the session.
unfoldable pub run_dbg_loop : List (Turn × JdwpPacket) → JdwpProxySession → JdwpProxySession
unfolding attempt_debugger_packet
run_dbg_loop [] session = session
run_dbg_loop ((turn, packet) ∷ rest) session = elim session.close_event [
  | true ↦ session
  | false ↦ elim (attempt_debugger_packet turn packet session) [
    | done s ↦ run_dbg_loop rest s
    | raised s ↦ handle_exception s
  ]
]
