-- ===== src/Connection/Entries.antt =====
-- What the Duplicate check of `send_command_packet` (src/jdwpy/connection.py) is for.
use jdwpy.Prelude.{arith, none, refl, some, ℕ, ◌∙◌, ◌≡◌, ◌≢◌}
use jdwpy.Prelude.Int.{ℤ}
use jdwpy.Struct.{ok}
use jdwpy.Dict.{lookup, lookup-insert_ne, lookup-insert_self}
use jdwpy.Connection.{JdwpPacketConnection, begin_send, waiting}
use jdwpy.Connection.Outcomes.{begin_send-started, started, update_self}
use mathlib.Core.Path.{subst}

begin_send-unused :
    (id : ℤ) (c c' : JdwpPacketConnection)
    → begin_send id c ≡ ok c'
    → lookup id c.pending_replies ≡ none
unfolding begin_send
begin_send-unused id c c' h = ground arith

-- A call that begins, in any state, takes no entry from another call: each entry stands as it was, and the
-- new call's stands under its packet id.
pub begin_send-keeps_entries :
    (id j : ℤ) (n : ℕ) (c c' : JdwpPacketConnection)
    → begin_send id c ≡ ok c'
    → lookup j c.pending_replies ≡ some n
    → (lookup j c'.pending_replies ≡ some n)
      × (lookup id c'.pending_replies ≡ some c.next_future)
      × (c'.outcome c.next_future ≡ waiting)
begin_send-keeps_entries id j n c c' b h =
    subst
      (λ d.
        (lookup j d.pending_replies ≡ some n)
        × (lookup id d.pending_replies ≡ some c.next_future)
        × (d.outcome c.next_future ≡ waiting))
      (begin_send-started c id c' b) started-keeps
  where
    other : id ≢ j
    other e = cc (begin_send-unused id c c' b, h, e)

    started-keeps :
        (lookup j (started c id).pending_replies ≡ some n)
        × (lookup id (started c id).pending_replies ≡ some c.next_future)
        × ((started c id).outcome c.next_future ≡ waiting)
    started-keeps =
        unfold started in
        (
          lookup-insert_ne id j c.next_future c.pending_replies other ∙ h,
          lookup-insert_self id id c.next_future c.pending_replies refl,
          update_self c.outcome c.next_future waiting c.next_future refl,
        )
