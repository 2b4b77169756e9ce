-- ===== src/Connection/Simple/Delivery.antt =====
-- What the calls of a SimpleJdwpConnection of src/jdwpy/connection.py can rely on. Nothing is asked of packet
-- ids here: the connection gives every call an id of its own.
use jdwpy.Prelude.{List, Option-cases, false, inl, inr, none, refl, some, suc, ℕ, ◌<◌, ◌≡◌, ◌≢◌}
use jdwpy.Prelude.Int.{pos}
use jdwpy.Struct.{ok}
use jdwpy.Dict.{lookup, lookup-insert_self}
use jdwpy.Io.{Platform}
use jdwpy.Commands.Base.{to_bytes}
use jdwpy.Commands.Registry.{CommandClass, ResponseClass}
use jdwpy.Packet.{JdwpReplyPacket}
use jdwpy.Connection.{
  Failure, begin_send, check, close, fail_receive, receive_reply, result, waiting,
}
use jdwpy.Connection.Outcomes.{started, update_self}
use jdwpy.Connection.Delivery.{Reach-IsValid, fail_receive-settles, receive_reply-delivers}
use jdwpy.Connection.Simple.{
  SimpleJdwpConnection, SimpleReach, begin_call, called, new_packet, start_command,
}
use jdwpy.Connection.Simple.Calls.{SimpleReach-IsNumbered, next_packet_id-IsFresh}

module _ {p : Platform} (conn : SimpleJdwpConnection) (reached : SimpleReach p conn) where
  unused_id : lookup (pos conn.next_packet_id) conn.packet_conn.pending_replies ≡ none
  unused_id =
      let v = SimpleReach-IsNumbered reached in
      elim (Option-cases (lookup (pos conn.next_packet_id) conn.packet_conn.pending_replies)) [
        | inl e ↦ e
        | inr (n, e) ↦
            let (old, same, running) =
              (Reach-IsValid v.reached).known (pos conn.next_packet_id) n e in
            absurd (next_packet_id-IsFresh conn v n old running same)
      ]

  -- In every state that a SimpleJdwpConnection comes to and in which its packet connection is neither closed
  -- nor failed, `send_command` with a command that can be written and that has a reply never meets the
  -- Duplicate error: the call awaits its reply under the id that it took, and the next id is another.
  pub start_command-called :
      (cls : CommandClass) (cmd : cls.Instance) (r : ResponseClass) (payload : List ℕ)
      → check conn.packet_conn.state ≡ ok tt
      → to_bytes p conn.spec (cls.serialize cmd) ≡ ok payload
      → cls.response ≡ some r
      → (conn' : SimpleJdwpConnection) × (start_command p cls cmd conn
          ≡ (called (new_packet cls conn.next_packet_id payload), conn'))
        × (lookup (pos conn.next_packet_id) conn'.packet_conn.pending_replies
            ≡ some conn.packet_conn.next_future)
        × (conn'.packet_conn.outcome conn.packet_conn.next_future ≡ waiting)
        × (conn'.next_packet_id ≡ suc conn.next_packet_id)
  unfolding start_command begin_call
  start_command-called cls cmd r payload open_ written reply_ = (
    record conn {
      packet_conn = started conn.packet_conn (pos conn.next_packet_id);
      next_packet_id = suc conn.next_packet_id;
    },
    rw (start_command, written, reply_, begin_call, begins) refl,
    unfold started in
        lookup-insert_self (pos conn.next_packet_id) (pos conn.next_packet_id)
          conn.packet_conn.next_future conn.packet_conn.pending_replies refl,
    unfold started in
        update_self conn.packet_conn.outcome conn.packet_conn.next_future waiting
          conn.packet_conn.next_future refl,
    refl,
  )
    where
      begins :
          begin_send (pos conn.next_packet_id) conn.packet_conn
          ≡ ok (started conn.packet_conn (pos conn.next_packet_id))
      begins = unfold begin_send started in rw (begin_send, open_, unused_id) refl

  -- In every state that a SimpleJdwpConnection comes to, a reply with the id of a call that waits reaches
  -- that call: its future gets the reply, and the outcome of any other call stays what it was.
  pub receive_reply-answers :
      (n m : ℕ) (packet : JdwpReplyPacket)
      → n < conn.packet_conn.next_future
      → conn.packet_conn.finished n ≡ false
      → conn.packet_conn.outcome n ≡ waiting
      → packet.id ≡ conn.packet_conn.request_id n
      → m ≢ n
      → ((receive_reply packet conn.packet_conn).outcome n ≡ result packet)
        × ((receive_reply packet conn.packet_conn).outcome m ≡ conn.packet_conn.outcome m)
  receive_reply-answers =
      receive_reply-delivers conn.packet_conn (SimpleReach-IsNumbered reached).reached

  -- In every state that a SimpleJdwpConnection comes to, when receiving fails or the connection is closed, no
  -- call that has not finished is left waiting for a reply.
  pub fail_receive-answers :
      (e : Failure) (n : ℕ)
      → n < conn.packet_conn.next_future
      → conn.packet_conn.finished n ≡ false
      → ((fail_receive e conn.packet_conn).outcome n ≢ waiting)
        × ((close conn.packet_conn).outcome n ≢ waiting)
  fail_receive-answers =
      fail_receive-settles conn.packet_conn (SimpleReach-IsNumbered reached).reached
