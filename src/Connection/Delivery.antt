-- ===== src/Connection/Delivery.antt =====
-- What a JdwpPacketConnection of src/jdwpy/connection.py does for its calls, in every state that it can
-- come to.
use jdwpy.Prelude.{
  Option-cases, ap, arith, false, inl, inr, none, refl, some, ℕ, ◌<◌, ◌∙◌, ◌≡◌, ◌≢◌,
}
use jdwpy.Prelude.Int.{ℤ}
use jdwpy.Struct.{err, ok, runtime_error}
use jdwpy.Dict.{lookup, lookup-remove_self}
use jdwpy.Packet.{JdwpReplyPacket}
use jdwpy.Connection.{
  ConnectionState, Failure, JdwpPacketConnection, abandon_send, begin_send, cancelled,
  cancelled_error, check, close, exception, fail_receive, finish_send, is_waiting, mark_closed,
  mark_error, outcome_of, receive_reply, result, waiting,
}
use jdwpy.Connection.Steps.{
  IsValid, Reach, Step, abandon, begin, closing, fail, finish, new, next, reply,
}
use jdwpy.Connection.Invariant.{
  IsValid-new, abandon_send-IsValid, clear_pending_replies-IsValid, clear_pending_replies-settled,
  finish_send-IsValid,
}
use jdwpy.Connection.Outcomes.{
  begin_send-IsValid, begin_send-started, receive_reply-IsValid, started, update_other, update_self,
}
use mathlib.Core.Path.{subst}

not_result : (e : Failure) (packet : JdwpReplyPacket) → outcome_of e ≢ result packet
not_result cancelled_error packet h = cc
not_result (exception e) packet h = cc

settled_outcome : (e : Failure) → is_waiting (outcome_of e) ≡ false
settled_outcome cancelled_error = refl
settled_outcome (exception e) = refl

-- The state of the connection is not part of the invariant.
IsValid-state :
    (c : JdwpPacketConnection) (s : ConnectionState) → IsValid c → IsValid (record c { state = s })
IsValid-state c s v = record {
  registered = v.registered;
  known = v.known;
  distinct = v.distinct;
  matched = v.matched;
}

Step-IsValid : {c c' : JdwpPacketConnection} → Step c c' → IsValid c → IsValid c'
unfolding fail_receive close
Step-IsValid {c} (begin id c' fresh h) v = begin_send-IsValid c v id c' fresh h
Step-IsValid {c} (finish n old running done) v = finish_send-IsValid n c v old running
Step-IsValid {c} (abandon n old running) v = abandon_send-IsValid c v n old running
Step-IsValid {c} (reply packet) v = receive_reply-IsValid c v packet
Step-IsValid {c} (fail e) v =
    clear_pending_replies-IsValid _ (IsValid-state c (mark_error e c.state) v) (outcome_of e)
      (settled_outcome e) (not_result e)
Step-IsValid {c} closing v =
    clear_pending_replies-IsValid _ (IsValid-state c (mark_closed c.state) v) cancelled refl
      (λ packet h. cc)

-- In every state that a connection comes to, if the packet id of each new call is not that of a call that
-- has not finished: a call that waits has its entry under its packet id, every entry is of a call that
-- has not finished, such calls have different ids, and a result answers its call's own id.
pub Reach-IsValid : {c : JdwpPacketConnection} → Reach c → IsValid c
Reach-IsValid new = IsValid-new
Reach-IsValid (next r s) = Step-IsValid s (Reach-IsValid r)

module _ (c : JdwpPacketConnection) (reached : Reach c) where
  -- Where no call was begun with the id of an unfinished one, a reply with the id of a call that waits
  -- reaches that call: its future gets the reply, and the
  -- outcome of any other call stays what it was.
  pub receive_reply-delivers :
      (n m : ℕ) (packet : JdwpReplyPacket)
      → n < c.next_future
      → c.finished n ≡ false
      → c.outcome n ≡ waiting
      → packet.id ≡ c.request_id n
      → m ≢ n
      → ((receive_reply packet c).outcome n ≡ result packet)
        × ((receive_reply packet c).outcome m ≡ c.outcome m)
  unfolding receive_reply
  receive_reply-delivers n m packet h f w e ne =
      let entry : lookup packet.id c.pending_replies ≡ some n =
        ap (λ k. lookup k c.pending_replies) e ∙ (Reach-IsValid reached).registered n h f w in
      (rw (entry, w) (ground arith), rw (entry, w) (ground arith))

  -- Where no call was begun with the id of an unfinished one, and receiving fails or the connection is
  -- closed, no call that has not finished is left waiting for a reply.
  pub fail_receive-settles :
      (e : Failure) (n : ℕ)
      → n < c.next_future
      → c.finished n ≡ false
      → ((fail_receive e c).outcome n ≢ waiting) × ((close c).outcome n ≢ waiting)
  unfolding fail_receive close
  fail_receive-settles e n h f = (
    clear_pending_replies-settled _ (IsValid-state c (mark_error e c.state) (Reach-IsValid reached))
        (outcome_of e) (settled_outcome e) n h f,
    clear_pending_replies-settled _ (IsValid-state c (mark_closed c.state) (Reach-IsValid reached))
        cancelled refl n h f,
  )

-- The future k waits in c for a reply with the id, and has no entry.
abbrev pub IsLost : ℕ → ℤ → JdwpPacketConnection → Type 0
IsLost k id c =
    (c.outcome k ≡ waiting)
    × (c.finished k ≡ false)
    × (c.request_id k ≡ id)
    × (lookup id c.pending_replies ≡ none)

module _ (n : ℕ) (c : JdwpPacketConnection) (old : n < c.next_future) where
  started-loses : IsLost c.next_future (c.request_id n) (finish_send n (started c (c.request_id n)))
  unfolding finish_send started
  started-loses =
      let ne : n ≢ c.next_future = omega arith in
      (
        update_self c.outcome c.next_future waiting c.next_future refl,
        ground arith,
        update_self c.request_id c.next_future (c.request_id n) c.next_future refl,
        lookup-remove_self _ (c.request_id n) _
            (update_other c.request_id c.next_future (c.request_id n) n ne),
      )

  -- A call that begins with the packet id of a call which has its reply and has not run its `finally`
  -- yet is lost: that `finally` removes the new call's entry, and the new call waits with none.
  pub finish_send-loses :
      (c' : JdwpPacketConnection)
      → begin_send (c.request_id n) c ≡ ok c'
      → IsLost c.next_future (c.request_id n) (finish_send n c')
  finish_send-loses c' b =
      subst (λ d. IsLost c.next_future (c.request_id n) (finish_send n d))
        (begin_send-started c (c.request_id n) c' b) started-loses

begin_send-refuses :
    (id : ℤ) (c : JdwpPacketConnection)
    → check c.state ≡ err runtime_error
    → begin_send id c ≡ err runtime_error
unfolding begin_send
begin_send-refuses id c h = rw (begin_send, h) refl

check-mark_error : (e : Failure) (s : ConnectionState) → check (mark_error e s) ≡ err runtime_error
unfolding check mark_error
check-mark_error e s = ground arith

check-mark_closed : (s : ConnectionState) → check (mark_closed s) ≡ err runtime_error
unfolding check mark_closed
check-mark_closed s = refl

Step-check :
    {c c' : JdwpPacketConnection}
    → Step c c'
    → check c.state ≡ err runtime_error
    → check c'.state ≡ err runtime_error
unfolding finish_send abandon_send receive_reply fail_receive close
Step-check {c} (begin id c' fresh b) h = cc (b, begin_send-refuses id c h)
Step-check (finish n old running done) h = h
Step-check (abandon n old running) h = h
Step-check {c} (reply packet) h = elim (Option-cases (lookup packet.id c.pending_replies)) [
  | inl e ↦ rw e h
  | inr (n, e) ↦ rw e h
]
Step-check {c} (fail e) h = check-mark_error e c.state
Step-check {c} closing h = check-mark_closed c.state

-- Closing a connection, or failing to receive, makes it refuse every call.
pub begin_send-closed :
    (c : JdwpPacketConnection) (e : Failure) (id : ℤ)
    → (begin_send id (close c) ≡ err runtime_error)
      × (begin_send id (fail_receive e c) ≡ err runtime_error)
begin_send-closed c e id =
    (begin_send-refuses id (close c) closes, begin_send-refuses id (fail_receive e c) fails)
  where
    closes : check (close c).state ≡ err runtime_error
    closes = unfold close in check-mark_closed c.state

    fails : check (fail_receive e c).state ≡ err runtime_error
    fails = unfold fail_receive in check-mark_error e c.state

-- A connection that refuses calls refuses them after any step.
pub Step-refuses :
    {c c' : JdwpPacketConnection} (id : ℤ)
    → Step c c'
    → check c.state ≡ err runtime_error
    → begin_send id c' ≡ err runtime_error
Step-refuses {c} {c'} id s h = begin_send-refuses id c' (Step-check s h)
