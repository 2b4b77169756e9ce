-- ===== src/Tests/Sessions.antt =====
-- Sessions of the proxy.
use jdwpy.Prelude.{List, [], none, refl, take, true, ℕ, ◌++◌, ◌∷◌, ◌≡◌, ◌⊎◌}
use jdwpy.Prelude.Int.{pos}
use jdwpy.Dict.{lookup}
use jdwpy.Packet.{JdwpCommandPacket, JdwpPacket, JdwpReplyPacket, command_packet, reply_packet}
use jdwpy.Proxy.{
  JdwpProxySession, Turn, done, handle_debugger_packet, handle_vm_packet, log_fails, new_session,
  passes, run_dbg_loop, run_vm_loop,
}
use jdwpy.Proxy.Forwarding.{run_dbg_loop-forwards, run_vm_loop-forwards}
use jdwpy.Proxy.Sizes.{handle_vm_packet-id_sizes}
use jdwpy.Tests.Data.{four_byte_payload, four_byte_spec, id_sizes_reply, upper_half}

abbrev id_sizes_question : JdwpCommandPacket
id_sizes_question = record {
  id = pos 1;
  flags = pos 0;
  payload = [];
  command_set = pos 1;
  command = pos 7;
}

run_vm_loop-forwards_example :
    (n : ℕ) × ((run_vm_loop upper_half (reply_packet id_sizes_reply ∷ []) new_session).dbg_sent
      ≡ [] ++ take n (reply_packet id_sizes_reply ∷ []))
    × (((run_vm_loop upper_half (reply_packet id_sizes_reply ∷ []) new_session).close_event ≡ true)
        ⊎ (n ≡ 1))
run_vm_loop-forwards_example =
    run_vm_loop-forwards upper_half (reply_packet id_sizes_reply ∷ []) new_session

-- The second packet reaches the VM, and its log line raises; the third packet stays behind.
abbrev failing_turns : List (Turn × JdwpPacket)
failing_turns =
    (passes, command_packet id_sizes_question)
    ∷ (log_fails, reply_packet id_sizes_reply)
    ∷ (passes, command_packet id_sizes_question)
    ∷ []

run_dbg_loop-forwards_example :
    ((run_dbg_loop failing_turns new_session).vm_sent
      ≡ [] ++ command_packet id_sizes_question ∷ reply_packet id_sizes_reply ∷ [])
    × ((run_dbg_loop failing_turns new_session).close_event ≡ true)
run_dbg_loop-forwards_example = run_dbg_loop-forwards failing_turns new_session refl

handle_vm_packet-id_sizes_example :
    (s : JdwpProxySession) × (handle_vm_packet upper_half
        (reply_packet id_sizes_reply)
        (handle_debugger_packet (command_packet id_sizes_question) new_session)
      ≡ done s)
    × (s.spec ≡ four_byte_spec)
    × (s.dbg_sent ≡ [] ++ reply_packet id_sizes_reply ∷ [])
    × (lookup (pos 1) s.idsizes_cmd_ids ≡ none)
    × (lookup (pos 1) s.outstanding_commands ≡ none)
handle_vm_packet-id_sizes_example =
    handle_vm_packet-id_sizes upper_half new_session four_byte_spec id_sizes_question id_sizes_reply
      id_sizes_reply.payload refl refl refl four_byte_payload refl

-- The VM says that its identifiers have 2 bytes.
abbrev two_byte_reply : JdwpReplyPacket
two_byte_reply = record {
  id = pos 1;
  flags = pos 0x80;
  payload = 0 ∷ 0 ∷ 0 ∷ 2 ∷ 0 ∷ 0 ∷ 0 ∷ 2 ∷ 0 ∷ 0 ∷ 0 ∷ 2 ∷ 0 ∷ 0 ∷ 0 ∷ 2 ∷ 0 ∷ 0 ∷ 0 ∷ 2 ∷ [];
  error_code = pos 0;
}

abbrev asked : JdwpProxySession
asked = handle_debugger_packet (command_packet id_sizes_question) new_session
