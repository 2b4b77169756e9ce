-- ===== src/Tests/Runs.antt =====
-- Runs of a packet connection.
use jdwpy.Prelude.{arith, false, refl, some, ℕ, ◌<◌, ◌≡◌, ◌≢◌}
use jdwpy.Prelude.Int.{pos}
use jdwpy.Struct.{err, ok, runtime_error}
use jdwpy.Dict.{insert, lookup, remove}
use jdwpy.Connection.{
  JdwpPacketConnection, begin_send, cancelled_error, check, clear_pending_replies, close,
  fail_receive, finish_send, mark_closed, new_connection, receive_reply, resolve, waiting,
}
use jdwpy.Connection.Steps.{IsValid, Reach, begin, new, next, reply}
use jdwpy.Connection.Outcomes.{started}
use jdwpy.Connection.Delivery.{
  IsLost, Reach-IsValid, Step-refuses, begin_send-closed, finish_send-loses,
}
use jdwpy.Tests.Data.{id_sizes_reply}
use jdwpy.Connection.Entries.{begin_send-keeps_entries}

abbrev waiting_one : JdwpPacketConnection
waiting_one = started new_connection (pos 1)

begin-one : begin_send (pos 1) new_connection ≡ ok waiting_one
unfolding begin_send started check lookup
begin-one = refl

fresh-one : (n : ℕ) → n < 0 → false ≡ false → pos 0 ≢ pos 1
fresh-one n h f = absurd (omega arith)

-- A connection that waits for the reply 1.
Reach-waiting_one : Reach waiting_one
Reach-waiting_one = next new (begin (pos 1) waiting_one fresh-one begin-one)

Reach-IsValid_example : IsValid waiting_one
Reach-IsValid_example = Reach-IsValid Reach-waiting_one

begin-two : begin_send (pos 2) waiting_one ≡ ok (started waiting_one (pos 2))
unfolding begin_send started check lookup insert remove
begin-two = refl

entry-one : lookup (pos 1) waiting_one.pending_replies ≡ some 0
unfolding started lookup insert
entry-one = refl

begin_send-keeps_entries_example :
    (lookup (pos 1) (started waiting_one (pos 2)).pending_replies ≡ some 0)
    × (lookup (pos 2) (started waiting_one (pos 2)).pending_replies ≡ some waiting_one.next_future)
    × ((started waiting_one (pos 2)).outcome waiting_one.next_future ≡ waiting)
begin_send-keeps_entries_example =
    begin_send-keeps_entries (pos 2) (pos 1) 0 waiting_one (started waiting_one (pos 2)) begin-two
      entry-one

-- The reply 1 has come, and its call has not run its `finally`.
abbrev answered : JdwpPacketConnection
answered = receive_reply id_sizes_reply waiting_one

answered-old : 0 < answered.next_future
unfolding receive_reply started resolve lookup insert
answered-old = omega arith

answered-begins :
    begin_send (answered.request_id 0) answered ≡ ok (started answered (answered.request_id 0))
unfolding begin_send receive_reply started resolve lookup insert remove check
answered-begins = refl

finish_send-loses_example :
    IsLost answered.next_future
      (answered.request_id 0)
      (finish_send 0 (started answered (answered.request_id 0)))
finish_send-loses_example =
    finish_send-loses 0 answered answered-old (started answered (answered.request_id 0))
      answered-begins

begin_send-closed_example :
    (begin_send (pos 2) (close waiting_one) ≡ err runtime_error)
    × (begin_send (pos 2) (fail_receive cancelled_error waiting_one) ≡ err runtime_error)
begin_send-closed_example = begin_send-closed waiting_one cancelled_error (pos 2)

closed-check : check (close waiting_one).state ≡ err runtime_error
unfolding check close clear_pending_replies mark_closed
closed-check = refl

-- A reply that comes after the connection was closed does not open it.
Step-refuses_example :
    begin_send (pos 2) (receive_reply id_sizes_reply (close waiting_one)) ≡ err runtime_error
Step-refuses_example = Step-refuses (pos 2) (reply id_sizes_reply) closed-check
