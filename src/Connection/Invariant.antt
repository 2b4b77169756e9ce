-- ===== src/Connection/Invariant.antt =====
-- Each step keeps IsValid (src/jdwpy/connection.py).
use jdwpy.Prelude.{
  Bool, [], ap, arith, false, if◌then◌else◌, some, sym, true, ℕ, ◌<◌, ◌∙◌, ◌∷◌, ◌≡◌, ◌≢◌,
}
use jdwpy.Prelude.Int.{ℤ}
use jdwpy.Dict.{Dict, lookup, lookup-remove-some, lookup-remove_ne, remove}
use jdwpy.Packet.{JdwpReplyPacket}
use jdwpy.Connection.{
  JdwpPacketConnection, Outcome, abandon_send, cancelled, clear_pending_replies, finish_send,
  is_value, is_waiting, new_connection, result, update, waiting,
}
use jdwpy.Connection.Steps.{IsValid}

pub IsValid-new : IsValid new_connection
unfolding lookup
IsValid-new = record {
  registered = λ n h. absurd (omega arith);
  known = λ id n h. cc;
  distinct = λ m n h. absurd (omega arith);
  matched = λ n packet h. absurd (omega arith);
}

-- What `update` does at the point and elsewhere.
update-cases : (f : ℕ → Bool) (n m : ℕ) → update f n true m ≡ false → (f m ≡ false) × (m ≢ n)
update-cases f n m h = ground arith

update-ne : (f : ℕ → Bool) (n m : ℕ) → m ≢ n → f m ≡ false → update f n true m ≡ false
update-ne f n m h e = ground arith

module _ (n : ℕ) (c : JdwpPacketConnection) (v : IsValid c) where
  pub finish_send-IsValid : n < c.next_future → c.finished n ≡ false → IsValid (finish_send n c)
  unfolding finish_send
  finish_send-IsValid old running = record {
    registered = λ m h f w.
        let (mf, ne) = update-cases c.finished n m f in
        let other : c.request_id n ≢ c.request_id m =
          λ e. ne (v.distinct m n h old mf running (sym e)) in
        lookup-remove_ne (c.request_id n) (c.request_id m) c.pending_replies other
        ∙ v.registered m h mf w;
    known = λ id m h.
        let (ne, e) = lookup-remove-some (c.request_id n) id m c.pending_replies h in
        let (hm, same, mf) = v.known id m e in
        let other : m ≢ n = λ q. ne (ap c.request_id (sym q) ∙ same) in
        (hm, same, update-ne c.finished n m other mf);
    distinct = λ i j hi hj fi fj.
        v.distinct i j hi hj (update-cases c.finished n i fi).0 (update-cases c.finished n j fj).0;
    matched = v.matched;
  }

-- A step that changes outcomes of calls that wait, and only so.
pub record Settles (c : JdwpPacketConnection) (outcome : ℕ → Outcome) : Type 0 where
  pub still : (n : ℕ) → outcome n ≡ waiting → c.outcome n ≡ waiting
  pub answers :
      (n : ℕ) (packet : JdwpReplyPacket)
      → n < c.next_future
      → outcome n ≡ result packet
      → packet.id ≡ c.request_id n

module _ (c : JdwpPacketConnection) (v : IsValid c) where
  pub Settles-IsValid :
      (outcome : ℕ → Outcome) → Settles c outcome → IsValid (record c { outcome = outcome })
  Settles-IsValid outcome s = record {
    registered = λ n h f w. v.registered n h f (s.still n w);
    known = v.known;
    distinct = v.distinct;
    matched = s.answers;
  }

  cancel-Settles :
      (n : ℕ)
      → Settles c (if is_waiting (c.outcome n) then update c.outcome n cancelled else c.outcome)
  cancel-Settles n = record {
    still = λ m w. ground arith;
    answers = λ m packet h e. v.matched m packet h (ground arith);
  }

  pub abandon_send-IsValid :
      (n : ℕ) → n < c.next_future → c.finished n ≡ false → IsValid (abandon_send n c)
  unfolding abandon_send
  abandon_send-IsValid n old running =
      finish_send-IsValid n _ (Settles-IsValid _ (cancel-Settles n)) old running

lookup→is_value : (id : ℤ) (n : ℕ) (d : Dict ℕ) → lookup id d ≡ some n → is_value n d ≡ true
unfolding lookup is_value
lookup→is_value id n [] h = cc
lookup→is_value id n ((j, m) ∷ d) h = ground (arith, lookup→is_value id n d)

module _ (c : JdwpPacketConnection) (v : IsValid c) where
  -- Clearing the dict settles every call that waited.
  pub clear_pending_replies-settled :
      (o : Outcome)
      → is_waiting o ≡ false
      → (n : ℕ) → n < c.next_future
      → c.finished n ≡ false
      → (clear_pending_replies o c).outcome n ≢ waiting
  unfolding clear_pending_replies
  clear_pending_replies-settled o settled n h f w =
      ground (arith, v.registered n h f, lookup→is_value (c.request_id n) n c.pending_replies)

  pub clear_pending_replies-IsValid :
      (o : Outcome)
      → is_waiting o ≡ false
      → ((packet : JdwpReplyPacket) → o ≢ result packet)
      → IsValid (clear_pending_replies o c)
  unfolding clear_pending_replies lookup
  clear_pending_replies-IsValid o settled failing = record {
    registered = λ n h f w. absurd (clear_pending_replies-settled o settled n h f w);
    known = λ id n h. cc;
    distinct = v.distinct;
    matched = λ n packet h e. ground (arith, failing packet, v.matched n packet h);
  }

  -- An entry is popped that no waiting call needs.
  pub remove-IsValid :
      (id : ℤ)
      → ((n : ℕ)
          → n < c.next_future
          → c.finished n ≡ false
          → c.outcome n ≡ waiting
          → id ≢ c.request_id n)
      → IsValid (record c { pending_replies = remove id c.pending_replies })
  remove-IsValid id unused = record {
    registered = λ n h f w.
        lookup-remove_ne id (c.request_id n) c.pending_replies (unused n h f w)
        ∙ v.registered n h f w;
    known = λ j n h. v.known j n (lookup-remove-some id j n c.pending_replies h).1;
    distinct = v.distinct;
    matched = v.matched;
  }
