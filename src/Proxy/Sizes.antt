-- ===== src/Proxy/Sizes.antt =====
-- The identifier sizes that a session of src/jdwpy/proxy.py follows.
use jdwpy.Prelude.{
  List, [], ap, append-nil, arith, none, refl, some, sym, true, ℕ, ◌++◌, ◌∙◌, ◌∷◌, ◌≡◌,
}
use jdwpy.Prelude.Int.{pos, ℤ, ◌==ℤ◌}
use jdwpy.Struct.{Result, err, ok}
use jdwpy.Spec.{IdSizesSpec, IdStruct, size, struct_32, struct_64}
use jdwpy.Spec.Sizes.{create_total}
use jdwpy.Io.{Platform}
use jdwpy.Io.Ranges.{IsInt}
use jdwpy.Commands.Base.{Decodes, RoundTrip-Decodes, from_bytes, to_bytes}
use jdwpy.Commands.Vm.Info.{
  IdSizesResponse, IsIdSizesResponse, RoundTrip-id_sizes_response, deserialize_id_sizes_response,
  serialize_id_sizes_response,
}
use jdwpy.Dict.{==ℤ_iff, lookup, lookup-insert_self, lookup-remove_self, remove}
use jdwpy.Packet.{JdwpCommandPacket, JdwpReplyPacket, command_packet, reply_packet}
use jdwpy.Proxy.{
  JdwpProxySession, and_then, done, forget_command, from_response, handle_debugger_packet,
  handle_vm_packet, intercept, is_id_sizes, note_command, read_spec, send_to_debugger, send_to_vm,
}

-- The reply to IDSizes of a VM with the spec.
abbrev pub sizes_of : IdSizesSpec → IdSizesResponse
sizes_of s = record {
  field_id_size = pos (size s.field_id_struct);
  method_id_size = pos (size s.method_id_struct);
  object_id_size = pos (size s.object_id_struct);
  reference_type_id_size = pos (size s.reference_type_id_struct);
  frame_id_size = pos (size s.frame_id_struct);
}

size-IsInt : (k : IdStruct) → IsInt (pos (size k))
size-IsInt struct_32 = omega arith
size-IsInt struct_64 = omega arith

pub sizes_of-IsIdSizesResponse :
    (p : Platform) (s new_spec : IdSizesSpec) → IsIdSizesResponse p s (sizes_of new_spec)
sizes_of-IsIdSizesResponse p s new_spec = (
  size-IsInt new_spec.field_id_struct,
  size-IsInt new_spec.method_id_struct,
  size-IsInt new_spec.object_id_struct,
  size-IsInt new_spec.reference_type_id_struct,
  size-IsInt new_spec.frame_id_struct,
)

-- What `read_spec` does with the bytes of the payload.
abbrev read_as : Platform → IdSizesSpec → List ℕ → Result IdSizesSpec
read_as p s bytes = elim (from_bytes p s deserialize_id_sizes_response bytes) [
  | ok r ↦ from_response r
  | err e ↦ err e
]

pub read_spec-sizes_of :
    (p : Platform) (s new_spec : IdSizesSpec) (r : JdwpReplyPacket) (bytes : List ℕ)
    → to_bytes p s (serialize_id_sizes_response (sizes_of new_spec)) ≡ ok bytes
    → r.payload ≡ bytes
    → read_spec p s r ≡ ok new_spec
unfolding read_spec from_response
read_spec-sizes_of p s new_spec r bytes h e =
    ap (read_as p s) (e ∙ same ∙ sym (append-nil it.0))
    ∙ rw (read_as, it.2 []) (create_total new_spec)
  where
    it :
        Decodes p s
          (serialize_id_sizes_response (sizes_of new_spec))
          deserialize_id_sizes_response
          (sizes_of new_spec)
    it = RoundTrip-Decodes (
        RoundTrip-id_sizes_response {p = p} {s = s} {c = sizes_of new_spec}
          (sizes_of-IsIdSizesResponse p s new_spec))

    same : bytes ≡ it.0
    same = cc (h, it.1)

intercept-awaited :
    (p : Platform) (r : JdwpReplyPacket) (session : JdwpProxySession) (new_spec : IdSizesSpec)
    → lookup r.id session.idsizes_cmd_ids ≡ some tt
    → (r.error_code ==ℤ pos 0) ≡ true
    → read_spec p session.spec r ≡ ok new_spec
    → intercept p r session
      ≡ done (record session {
        idsizes_cmd_ids = remove r.id session.idsizes_cmd_ids;
        spec = new_spec;
      })
unfolding intercept
intercept-awaited p r session new_spec awaited good h = rw (intercept, awaited, good, h) refl

note_command-is_id_sizes :
    (c : JdwpCommandPacket) (id : ℤ) (session : JdwpProxySession)
    → is_id_sizes c ≡ true
    → c.id ≡ id
    → lookup id (note_command c session).idsizes_cmd_ids ≡ some tt
unfolding note_command
note_command-is_id_sizes c id session asks same =
    rw (note_command, asks) (lookup-insert_self c.id id tt session.idsizes_cmd_ids same)

-- After the debugger asks for the identifier sizes and the VM replies with those of a spec, the session
-- has this spec, has sent the reply to the debugger, and waits for this reply no longer.
pub handle_vm_packet-id_sizes :
    (p : Platform) (session : JdwpProxySession) (new_spec : IdSizesSpec) (c : JdwpCommandPacket)
    (r : JdwpReplyPacket) (bytes : List ℕ)
    → is_id_sizes c ≡ true
    → r.id ≡ c.id
    → r.error_code ≡ pos 0
    → to_bytes p session.spec (serialize_id_sizes_response (sizes_of new_spec)) ≡ ok bytes
    → r.payload ≡ bytes
    → (s : JdwpProxySession) × (handle_vm_packet p
          (reply_packet r)
          (handle_debugger_packet (command_packet c) session)
        ≡ done s)
      × (s.spec ≡ new_spec)
      × (s.dbg_sent ≡ session.dbg_sent ++ reply_packet r ∷ [])
      × (lookup r.id s.idsizes_cmd_ids ≡ none)
      × (lookup r.id s.outstanding_commands ≡ none)
unfolding handle_vm_packet handle_debugger_packet note_command forget_command
handle_vm_packet-id_sizes p session new_spec c r bytes asks same good written payload =
    let asked : JdwpProxySession = send_to_vm (command_packet c) (note_command c session) in
    let taken : JdwpProxySession = record asked {
      idsizes_cmd_ids = remove r.id asked.idsizes_cmd_ids;
      spec = new_spec;
    } in
    (
      forget_command (reply_packet r) (send_to_debugger (reply_packet r) taken),
      ap (and_then _) (
          intercept-awaited p r asked new_spec
            (note_command-is_id_sizes c r.id session asks (sym same))
            ((==ℤ_iff r.error_code (pos 0)).1 good)
            (read_spec-sizes_of p session.spec new_spec r bytes written payload)),
      refl,
      refl,
      lookup-remove_self r.id r.id asked.idsizes_cmd_ids refl,
      lookup-remove_self r.id r.id asked.outstanding_commands refl,
    )
