-- ===== src/Connection/Simple/Calls.antt =====
-- The packet ids that a SimpleJdwpConnection of src/jdwpy/connection.py gives its calls.
use jdwpy.Prelude.{Bool-cases, Option-cases, ap, arith, inl, inr, refl, suc, ℕ, ◌<◌, ◌∙◌, ◌≡◌}
use jdwpy.Prelude.Int.{pos, ℤ, ◌==ℤ◌}
use jdwpy.Struct.{Result-cases, ok}
use jdwpy.Dict.{lookup}
use jdwpy.Io.{Platform}
use jdwpy.Commands.Base.{from_bytes, to_bytes}
use jdwpy.Commands.Registry.{CommandClass, ResponseClass, has_key}
use jdwpy.Packet.{JdwpReplyPacket}
use jdwpy.Connection.{
  JdwpPacketConnection, abandon_send, begin_send, clear_pending_replies, close, fail_receive,
  finish_send, receive_reply,
}
use jdwpy.Connection.Steps.{
  IsFresh, Reach, Step, abandon, begin, closing, fail, finish, new, next, reply,
}
use jdwpy.Connection.Outcomes.{begin_send-started, below-suc, started, update_other, update_self}
use jdwpy.Connection.Simple.{
  IsQuiet, SimpleJdwpConnection, SimpleReach, SimpleStep, after, allocate_packet_id, answer,
  begin_call, created, finish_command, quiet, start, start_command,
}
use jdwpy.Spec.{IdSizesSpec}
use jdwpy.Proxy.{read_spec}
use mathlib.Core.Path.{subst}

-- The packet connection is in a state that fresh ids lead to, and every call's id is below the next one.
pub record IsNumbered (conn : SimpleJdwpConnection) : Type 0 where
  pub reached : Reach conn.packet_conn
  pub below :
      (n : ℕ)
      → n < conn.packet_conn.next_future
      → (k : ℕ) × (conn.packet_conn.request_id n ≡ pos k) × (k < conn.next_packet_id)

-- The next id is that of no call.
pub next_packet_id-IsFresh :
    (conn : SimpleJdwpConnection)
    → IsNumbered conn
    → IsFresh (pos conn.next_packet_id) conn.packet_conn
next_packet_id-IsFresh conn v n h running same =
    let (k, e, low) = v.below n h in
    let eq : k ≡ conn.next_packet_id = ground (arith, e, same) in omega arith

quiet-keeps :
    {c c' : JdwpPacketConnection} (s : Step c c')
    → IsQuiet s
    → (c'.next_future ≡ c.next_future) × (c'.request_id ≡ c.request_id)
unfolding finish_send abandon_send receive_reply fail_receive close clear_pending_replies
quiet-keeps (begin id c' fresh b) q = absurd q
quiet-keeps (finish n old running done) q = (refl, refl)
quiet-keeps (abandon n old running) q = (refl, refl)
quiet-keeps {c} (reply packet) q = elim (Option-cases (lookup packet.id c.pending_replies)) [
  | inl e ↦ (rw e refl, rw e refl)
  | inr (n, e) ↦ (rw e refl, rw e refl)
]
quiet-keeps (fail e) q = (refl, refl)
quiet-keeps closing q = (refl, refl)

allocate-IsNumbered :
    (conn : SimpleJdwpConnection) → IsNumbered conn → IsNumbered (allocate_packet_id conn)
allocate-IsNumbered conn v = record {
  reached = v.reached;
  below = λ n h. let (k, e, low) = v.below n h in (k, e, omega arith);
}

begun-IsNumbered :
    (conn : SimpleJdwpConnection) (c' : JdwpPacketConnection)
    → IsNumbered conn
    → begin_send (pos conn.next_packet_id) conn.packet_conn ≡ ok c'
    → IsNumbered (record conn { packet_conn = c'; next_packet_id = suc conn.next_packet_id })
begun-IsNumbered conn c' v b = record {
  reached = next v.reached (begin (pos conn.next_packet_id) c' (next_packet_id-IsFresh conn v) b);
  below =
      subst
        (λ d.
          (n : ℕ)
          → n < d.next_future
          → (k : ℕ) × (d.request_id n ≡ pos k) × (k < suc conn.next_packet_id))
        (begin_send-started c id c' b) started-below;
}
  where
    c : JdwpPacketConnection
    c = conn.packet_conn

    id : ℤ
    id = pos conn.next_packet_id

    started-below :
        (n : ℕ)
        → n < (started c id).next_future
        → (k : ℕ) × ((started c id).request_id n ≡ pos k) × (k < suc conn.next_packet_id)
    started-below n h =
        unfold started in
        elim (below-suc n c.next_future h) [
          | inl e ↦
              (conn.next_packet_id, update_self c.request_id c.next_future id n e, omega arith)
          | inr (old, ne) ↦
              let (k, e, low) = v.below n old in
              (k, update_other c.request_id c.next_future id n ne ∙ e, omega arith)
        ]

start_command-IsNumbered :
    (p : Platform) (cls : CommandClass) (cmd : cls.Instance) (conn : SimpleJdwpConnection)
    → IsNumbered conn
    → IsNumbered (start_command p cls cmd conn).1
unfolding start_command begin_call
start_command-IsNumbered p cls cmd conn v =
    elim (Result-cases (to_bytes p conn.spec (cls.serialize cmd))) [
      | inr (x, e) ↦ rw (start_command, e) (allocate-IsNumbered conn v)
      | inl (payload, e) ↦ elim (Option-cases cls.response) [
        | inl none_ ↦ rw (start_command, e, none_) (allocate-IsNumbered conn v)
        | inr (r, some_) ↦
            elim (Result-cases (begin_send (pos conn.next_packet_id) conn.packet_conn)) [
              | inl (c', b) ↦
                  rw (start_command, e, some_, begin_call, b) (begun-IsNumbered conn c' v b)
              | inr (x, b) ↦
                  rw (start_command, e, some_, begin_call, b) (allocate-IsNumbered conn v)
            ]
      ]
    ]

respec-IsNumbered :
    (conn : SimpleJdwpConnection) (s : IdSizesSpec)
    → IsNumbered conn
    → IsNumbered (record conn { spec = s })
respec-IsNumbered conn s v = record { reached = v.reached; below = v.below }

finish_command-IsNumbered :
    (p : Platform) (cls : CommandClass) (r : ResponseClass) (packet : JdwpReplyPacket)
    (conn : SimpleJdwpConnection)
    → IsNumbered conn
    → IsNumbered (finish_command p cls r packet conn).1
unfolding finish_command
finish_command-IsNumbered p cls r packet conn v = elim (Bool-cases (packet.error_code ==ℤ pos 0)) [
  | inr bad ↦ rw (finish_command, bad) v
  | inl good ↦ elim (Result-cases (from_bytes p conn.spec r.deserialize packet.payload)) [
    | inr (x, e) ↦ rw (finish_command, good, e) v
    | inl (a, e) ↦ elim (Bool-cases (has_key (pos 1) (pos 7) cls)) [
      | inr other ↦ rw (finish_command, good, e, other) v
      | inl sizes ↦ elim (Result-cases (read_spec p conn.spec packet)) [
        | inl (s, f) ↦ rw (finish_command, good, e, sizes, f) (respec-IsNumbered conn s v)
        | inr (x, f) ↦ rw (finish_command, good, e, sizes, f) v
      ]
    ]
  ]
]

SimpleStep-IsNumbered :
    {p : Platform} {conn conn' : SimpleJdwpConnection}
    → SimpleStep p conn conn'
    → IsNumbered conn
    → IsNumbered conn'
SimpleStep-IsNumbered {p} {conn} (start cls cmd) v = start_command-IsNumbered p cls cmd conn v
SimpleStep-IsNumbered {p} {conn} (answer cls r packet) v =
    finish_command-IsNumbered p cls r packet conn v
SimpleStep-IsNumbered {p} {conn} (quiet c' s q) v = record {
  reached = next v.reached s;
  below = λ n h.
      let (same, ids) = quiet-keeps s q in
      let (k, e, low) = v.below n (omega (arith, h, same)) in (k, ap (λ f. f n) ids ∙ e, low);
}

pub SimpleReach-IsNumbered :
    {p : Platform} {conn : SimpleJdwpConnection} → SimpleReach p conn → IsNumbered conn
SimpleReach-IsNumbered created = record { reached = new; below = λ n h. absurd (omega arith) }
SimpleReach-IsNumbered (after r s) = SimpleStep-IsNumbered s (SimpleReach-IsNumbered r)
