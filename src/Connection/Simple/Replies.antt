-- ===== src/Connection/Simple/Replies.antt =====
-- The replies that `send_command` of src/jdwpy/connection.py returns.
use jdwpy.Prelude.{[], ap, append-nil, false, refl, some, ◌++◌, ◌∙◌, ◌≡◌}
use jdwpy.Prelude.Int.{pos, ℤ}
use jdwpy.Struct.{ok}
use jdwpy.Dict.{==ℤ_iff}
use jdwpy.Spec.{IdSizesSpec}
use jdwpy.Io.{Platform}
use jdwpy.Commands.Base.{RoundTrip-Decodes, from_bytes, to_bytes}
use jdwpy.Commands.Registry.{CommandClass, ResponseClass, has_key}
use jdwpy.Commands.Vm.Info.{
  IdSizesResponse, IsIdSizesResponse, RoundTrip-id_sizes_response, deserialize_id_sizes_response,
  serialize_id_sizes_response,
}
use jdwpy.Commands.Registry.Vm.{id_sizes_class}
use jdwpy.Commands.Registry.Table.{get_command_class, get_response_class-Decodes}
use jdwpy.Packet.{JdwpReplyPacket}
use jdwpy.Proxy.Sizes.{read_spec-sizes_of, sizes_of, sizes_of-IsIdSizesResponse}
use jdwpy.Connection.Simple.{SimpleJdwpConnection, finish_command, response}

-- A reply that says no error and whose payload is the bytes of a response of the class that the registry has
-- for the command, IDSizes apart, ends `send_command` with this response and leaves the connection as it was.
pub finish_command-response :
    (p : Platform) (set command : ℤ) (cls : CommandClass) (r : ResponseClass)
    (packet : JdwpReplyPacket) (conn : SimpleJdwpConnection) (v : r.Instance)
    → get_command_class set command ≡ some cls
    → cls.response ≡ some r
    → has_key (pos 1) (pos 7) cls ≡ false
    → r.IsWritable p conn.spec v
    → packet.error_code ≡ pos 0
    → to_bytes p conn.spec (r.serialize v) ≡ ok packet.payload
    → finish_command p cls r packet conn ≡ (response v, conn)
unfolding finish_command
finish_command-response p set command cls r packet conn v found reply_ other w good written =
    let (bytes, packed, unpacked) =
      get_response_class-Decodes set command cls r p conn.spec v found reply_ w in
    let same : packet.payload ≡ bytes ++ [] = cc (written, packed, append-nil bytes) in
    let read : from_bytes p conn.spec r.deserialize packet.payload ≡ ok v =
      ap (from_bytes p conn.spec r.deserialize) same ∙ unpacked [] in
    rw (finish_command, (==ℤ_iff packet.error_code (pos 0)).1 good, read, other) refl

-- The class of the replies to IDSizes.
abbrev pub id_sizes_response_class : ResponseClass
id_sizes_response_class = record {
  Instance = IdSizesResponse;
  serialize = serialize_id_sizes_response;
  deserialize = deserialize_id_sizes_response;
  IsWritable = IsIdSizesResponse;
}

-- A reply to IDSizes that says no error and whose payload is the bytes of the sizes of a spec ends
-- `send_command` with these sizes, and the connection has this spec from then on.
pub finish_command-id_sizes :
    (p : Platform) (packet : JdwpReplyPacket) (conn : SimpleJdwpConnection) (new_spec : IdSizesSpec)
    → packet.error_code ≡ pos 0
    → to_bytes p conn.spec (serialize_id_sizes_response (sizes_of new_spec)) ≡ ok packet.payload
    → finish_command p id_sizes_class id_sizes_response_class packet conn
      ≡ (response (sizes_of new_spec), record conn { spec = new_spec })
unfolding finish_command
finish_command-id_sizes p packet conn new_spec good written =
    let (bytes, packed, unpacked) = RoundTrip-Decodes (
      RoundTrip-id_sizes_response {p = p} {s = conn.spec} {c = sizes_of new_spec}
        (sizes_of-IsIdSizesResponse p conn.spec new_spec)) in
    let same : packet.payload ≡ bytes ++ [] = cc (written, packed, append-nil bytes) in
    let read : from_bytes p conn.spec deserialize_id_sizes_response packet.payload
        ≡ ok (sizes_of new_spec) =
      ap (from_bytes p conn.spec deserialize_id_sizes_response) same ∙ unpacked [] in
    rw
      (
        finish_command,
        (==ℤ_iff packet.error_code (pos 0)).1 good,
        read,
        read_spec-sizes_of p conn.spec new_spec packet packet.payload written refl,
      )
      refl
