-- ===== src/Connection.antt =====
-- src/jdwpy/connection.py: ConnectionState and JdwpPacketConnection. The tasks of an event loop run one
-- at a time between two `await`s, so each stretch between two of them is one function on the state. A
-- future is a number; `outcome` is what it holds, `request_id` the packet id of the call of
-- `send_command_packet` that awaits it, and `finished` says that this call has run its `finally`.
pub mod Outcomes
pub mod Steps
pub mod Invariant
pub mod Delivery
pub mod Entries
pub mod Simple
use jdwpy.Prelude.{
  Bool, Option, [], false, if◌then◌else◌, none, some, suc, true, ℕ, ◌&&◌, ◌==◌, ◌||◌, ◌∷◌,
}
use jdwpy.Prelude.Int.{pos, ℤ}
use jdwpy.Struct.{Error, Result, err, ok, runtime_error}
use jdwpy.Dict.{Dict, insert, lookup, remove}
use jdwpy.Packet.{JdwpReplyPacket}

-- The exceptions that end a connection: CancelledError, and the others.
pub data Failure : Type 0 where
  cancelled_error : Failure
  exception : Error → Failure

pub record ConnectionState : Type 0 where
  pub closed : Bool
  pub error : Option Failure

unfoldable pub mark_closed : ConnectionState → ConnectionState
mark_closed s = record s { closed = true }

-- Only the first error is kept.
unfoldable pub mark_error : Failure → ConnectionState → ConnectionState
mark_error e s = elim s.error [ none ↦ record s { error = some e } | some _ ↦ s ]

-- `check`: a RuntimeError once closed or failed.
unfoldable pub check : ConnectionState → Result (Unit {0})
check s =
    if s.closed
    then err runtime_error
    else elim s.error [ none ↦ ok tt | some _ ↦ err runtime_error ]

pub data Outcome : Type 0 where
  waiting : Outcome
  result : JdwpReplyPacket → Outcome
  failed : Error → Outcome
  cancelled : Outcome

-- `not fut.done()`
abbrev pub is_waiting : Outcome → Bool
is_waiting waiting = true
is_waiting (result _) = false
is_waiting (failed _) = false
is_waiting cancelled = false

pub record JdwpPacketConnection : Type 0 where
  pub pending_replies : Dict ℕ
  pub state : ConnectionState
  pub next_future : ℕ
  pub outcome : ℕ → Outcome
  pub request_id : ℕ → ℤ
  pub finished : ℕ → Bool

abbrev pub update {ℓ} : {A : Type ℓ} → (ℕ → A) → ℕ → A → ℕ → A
update f k a n = if n == k then a else f n

-- `__init__`
abbrev pub new_connection : JdwpPacketConnection
new_connection = record {
  pending_replies = [];
  state = record { closed = false; error = none };
  next_future = 0;
  outcome = λ n. waiting;
  request_id = λ n. pos 0;
  finished = λ n. false;
}

-- Whether the future is among the dict's values.
unfoldable pub is_value : ℕ → Dict ℕ → Bool
is_value n [] = false
is_value n ((_, m) ∷ d) = n == m || is_value n d

-- `_clear_pending_replies`, and the same outcome for each unresolved future that it returns.
unfoldable pub clear_pending_replies : Outcome → JdwpPacketConnection → JdwpPacketConnection
unfolding is_value
clear_pending_replies o c = record c {
  pending_replies = [];
  outcome =
      λ n. if is_value n c.pending_replies && is_waiting (c.outcome n) then o else c.outcome n;
}

-- `send_command_packet` up to the `await` of the reply: the guards, the new future, and its entry.
unfoldable pub begin_send : ℤ → JdwpPacketConnection → Result JdwpPacketConnection
unfolding check insert
begin_send id c = elim (check c.state) [
  | err e ↦ err e
  | ok _ ↦ elim (lookup id c.pending_replies) [
    | some _ ↦ err runtime_error
    | none ↦ ok (record c {
      pending_replies = insert id c.next_future c.pending_replies;
      next_future = suc c.next_future;
      outcome = update c.outcome c.next_future waiting;
      request_id = update c.request_id c.next_future id;
      finished = update c.finished c.next_future false;
    })
  ]
]

-- The `finally` of the call that awaits the future n.
unfoldable pub finish_send : ℕ → JdwpPacketConnection → JdwpPacketConnection
unfolding remove
finish_send n c = record c {
  pending_replies = remove (c.request_id n) c.pending_replies;
  finished = update c.finished n true;
}

-- The caller of the call, or its `send`, gives up: the future is cancelled or dropped.
unfoldable pub abandon_send : ℕ → JdwpPacketConnection → JdwpPacketConnection
unfolding finish_send
abandon_send n c = finish_send n (record c {
  outcome = if is_waiting (c.outcome n) then update c.outcome n cancelled else c.outcome;
})

unfoldable pub resolve : Option ℕ → JdwpReplyPacket → JdwpPacketConnection → JdwpPacketConnection
resolve none packet c = c
resolve (some n) packet c = record c {
  outcome = if is_waiting (c.outcome n) then update c.outcome n (result packet) else c.outcome;
}

-- A reply that `receive_command` receives: its entry is popped, and the future resolved unless it is done.
unfoldable pub receive_reply : JdwpReplyPacket → JdwpPacketConnection → JdwpPacketConnection
unfolding remove lookup resolve
receive_reply packet c =
    resolve (lookup packet.id c.pending_replies) packet
      (record c { pending_replies = remove packet.id c.pending_replies })

abbrev pub outcome_of : Failure → Outcome
outcome_of cancelled_error = cancelled
outcome_of (exception e) = failed e

-- The `except` clauses of `receive_command`.
unfoldable pub fail_receive : Failure → JdwpPacketConnection → JdwpPacketConnection
unfolding clear_pending_replies mark_error
fail_receive e c = clear_pending_replies (outcome_of e) (record c { state = mark_error e c.state })

-- `close`, up to closing the sender and the receiver.
unfoldable pub close : JdwpPacketConnection → JdwpPacketConnection
unfolding clear_pending_replies mark_closed
close c = clear_pending_replies cancelled (record c { state = mark_closed c.state })
