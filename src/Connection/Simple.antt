-- ===== src/Connection/Simple.antt =====
-- src/jdwpy/connection.py: SimpleJdwpConnection. `send_command` up to the `await` of the reply, and from the
-- reply on, are two functions on the connection.
pub mod Calls
pub mod Delivery
pub mod Replies
use jdwpy.Prelude.{List, Option, if◌then◌else◌, none, some, suc, ℕ}
use jdwpy.Prelude.Int.{pos, ℤ, ◌==ℤ◌}
use jdwpy.Struct.{Error, err, ok}
use jdwpy.Constants.ErrorCode.{JdwpErrorCode, from_int}
use jdwpy.Spec.{IdSizesSpec, default_spec}
use jdwpy.Io.{Platform}
use jdwpy.Commands.Base.{from_bytes, to_bytes}
use jdwpy.Commands.Registry.{CommandClass, ResponseClass, has_key}
use jdwpy.Packet.{JdwpCommandPacket, JdwpReplyPacket}
use jdwpy.Connection.{JdwpPacketConnection, begin_send, new_connection}
use jdwpy.Connection.Steps.{Step, abandon, begin, closing, fail, finish, reply}
use jdwpy.Proxy.{read_spec}

pub record SimpleJdwpConnection : Type 0 where
  pub packet_conn : JdwpPacketConnection
  pub spec : IdSizesSpec
  pub next_packet_id : ℕ

-- `__init__`
abbrev pub new_simple : SimpleJdwpConnection
new_simple = record { packet_conn = new_connection; spec = default_spec; next_packet_id = 1 }

-- `_allocate_packet_id`, for the connection after it; the id is the old `next_packet_id`.
abbrev pub allocate_packet_id : SimpleJdwpConnection → SimpleJdwpConnection
allocate_packet_id conn = record conn { next_packet_id = suc conn.next_packet_id }

-- How the first part of `send_command` ends: an exception, a packet sent that no reply follows, or a packet
-- whose reply is awaited.
pub data Started : Type 0 where
  raised : Error → Started
  sent called : JdwpCommandPacket → Started

abbrev pub new_packet : CommandClass → ℕ → List ℕ → JdwpCommandPacket
new_packet cls id payload = record {
  id = pos id;
  flags = pos 0;
  payload = payload;
  command_set = pos cls.command_set;
  command = pos cls.command;
}

unfoldable pub begin_call :
    JdwpCommandPacket → SimpleJdwpConnection → Started × SimpleJdwpConnection
unfolding begin_send
begin_call packet conn = elim (begin_send packet.id conn.packet_conn) [
  | ok c ↦ (called packet, record conn { packet_conn = c })
  | err e ↦ (raised e, conn)
]

-- `send_command` up to the `await`: the id is taken before the command is written.
unfoldable pub start_command :
    Platform
    → (cls : CommandClass) → cls.Instance
    → SimpleJdwpConnection
    → Started × SimpleJdwpConnection
unfolding begin_call
start_command p cls cmd conn = elim (to_bytes p conn.spec (cls.serialize cmd)) [
  | err e ↦ (raised e, allocate_packet_id conn)
  | ok payload ↦ elim cls.response [
    | none ↦ (sent (new_packet cls conn.next_packet_id payload), allocate_packet_id conn)
    | some _ ↦ begin_call (new_packet cls conn.next_packet_id payload) (allocate_packet_id conn)
  ]
]

-- How `send_command` ends: a JdwpException with its code, another exception, or the response.
pub data Replied (A : Type 0) : Type 0 where
  jdwp_exception : Option JdwpErrorCode → ℤ → Replied A
  failed : Error → Replied A
  response : A → Replied A

-- `send_command` from the reply on. IDSizesResponse is the response class of the command 7 of the set 1
-- and of no other.
unfoldable pub finish_command :
    Platform
    → CommandClass
    → (r : ResponseClass) → JdwpReplyPacket
    → SimpleJdwpConnection
    → Replied r.Instance × SimpleJdwpConnection
unfolding read_spec from_int
finish_command p cls r packet conn =
    if packet.error_code ==ℤ pos 0
    then (elim (from_bytes p conn.spec r.deserialize packet.payload) [
      | err e ↦ (failed e, conn)
      | ok a ↦
          if has_key (pos 1) (pos 7) cls
          then (elim (read_spec p conn.spec packet) [
            | ok s ↦ (response a, record conn { spec = s })
            | err e ↦ (failed e, conn)
          ])
          else (response a, conn)
    ])
    else (jdwp_exception (from_int packet.error_code) packet.error_code, conn)

-- The steps of the packet connection that are not the begin of a call.
abbrev pub IsQuiet : {c c' : JdwpPacketConnection} → Step c c' → Type 0
IsQuiet (begin id c' fresh b) = ⊥
IsQuiet (finish n old running done) = Unit {0}
IsQuiet (abandon n old running) = Unit {0}
IsQuiet (reply packet) = Unit {0}
IsQuiet (fail e) = Unit {0}
IsQuiet closing = Unit {0}

-- What can happen to the connection between two `await`s. Nothing is asked of the packet ids.
pub data SimpleStep (p : Platform) (conn : SimpleJdwpConnection)
    : SimpleJdwpConnection → Type 1 where
  start :
      (cls : CommandClass) (cmd : cls.Instance) → SimpleStep p conn (start_command p cls cmd conn).1
  answer :
      (cls : CommandClass) (r : ResponseClass) (packet : JdwpReplyPacket)
      → SimpleStep p conn (finish_command p cls r packet conn).1
  quiet :
      (c' : JdwpPacketConnection) (s : Step conn.packet_conn c')
      → IsQuiet s
      → SimpleStep p conn (record conn { packet_conn = c' })

-- What a new connection can come to.
pub data SimpleReach (p : Platform) : SimpleJdwpConnection → Type 1 where
  created : SimpleReach p new_simple
  after :
      {conn conn' : SimpleJdwpConnection}
      → SimpleReach p conn
      → SimpleStep p conn conn'
      → SimpleReach p conn'
