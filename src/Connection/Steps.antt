-- ===== src/Connection/Steps.antt =====
-- What can happen to a JdwpPacketConnection of src/jdwpy/connection.py between two `await`s.
use jdwpy.Prelude.{false, some, ℕ, ◌<◌, ◌≡◌, ◌≢◌}
use jdwpy.Prelude.Int.{ℤ}
use jdwpy.Struct.{ok}
use jdwpy.Dict.{lookup}
use jdwpy.Packet.{JdwpReplyPacket}
use jdwpy.Connection.{
  Failure, JdwpPacketConnection, abandon_send, begin_send, close, fail_receive, finish_send,
  is_waiting, new_connection, receive_reply, result, waiting,
}

-- No call that has not finished uses the packet id. SimpleJdwpConnection numbers its packets upwards.
abbrev pub IsFresh : ℤ → JdwpPacketConnection → Type 0
IsFresh id c = (n : ℕ) → n < c.next_future → c.finished n ≡ false → c.request_id n ≢ id

pub data Step (c : JdwpPacketConnection) : JdwpPacketConnection → Type 0 where
  begin : (id : ℤ) (c' : JdwpPacketConnection) → IsFresh id c → begin_send id c ≡ ok c' → Step c c'
  finish :
      (n : ℕ)
      → n < c.next_future
      → c.finished n ≡ false
      → is_waiting (c.outcome n) ≡ false
      → Step c (finish_send n c)
  abandon : (n : ℕ) → n < c.next_future → c.finished n ≡ false → Step c (abandon_send n c)
  reply : (packet : JdwpReplyPacket) → Step c (receive_reply packet c)
  fail : (e : Failure) → Step c (fail_receive e c)
  closing : Step c (close c)

-- What a new connection can come to.
pub data Reach : JdwpPacketConnection → Type 0 where
  new : Reach new_connection
  next : {c c' : JdwpPacketConnection} → Reach c → Step c c' → Reach c'

-- Every call that still waits has its entry, so that its reply, a failure or a close will find it; an
-- entry is of a call that has not finished, under its packet id; a result answers the call's own id.
pub record IsValid (c : JdwpPacketConnection) : Type 0 where
  pub registered :
      (n : ℕ)
      → n < c.next_future
      → c.finished n ≡ false
      → c.outcome n ≡ waiting
      → lookup (c.request_id n) c.pending_replies ≡ some n
  pub known :
      (id : ℤ) (n : ℕ)
      → lookup id c.pending_replies ≡ some n
      → (n < c.next_future) × (c.request_id n ≡ id) × (c.finished n ≡ false)
  pub distinct :
      (m n : ℕ)
      → m < c.next_future
      → n < c.next_future
      → c.finished m ≡ false
      → c.finished n ≡ false
      → c.request_id m ≡ c.request_id n
      → m ≡ n
  pub matched :
      (n : ℕ) (packet : JdwpReplyPacket)
      → n < c.next_future
      → c.outcome n ≡ result packet
      → packet.id ≡ c.request_id n
