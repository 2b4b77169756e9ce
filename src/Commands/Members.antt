-- ===== src/Commands/Members.antt =====
-- The members of enumerations and the flags that the readers of src/jdwpy/commands make from a byte or
-- an int, as in `JdwpEventKind(reader.read_byte())`.
use jdwpy.Prelude.{arith, ℕ, ◌<◌}
use jdwpy.Prelude.Int.{negsuc, pos, ℤ}
use jdwpy.Constants.EventKind.{JdwpEventKind, event_kind_value, to_event_kind, to_event_kind-value}
use jdwpy.Constants.Policies.{
  JdwpSuspendPolicy, JdwpSuspendStatus, JdwpThreadStatus, suspend_policy_value,
  suspend_status_value, thread_status_value, to_suspend_policy, to_suspend_policy-value,
  to_suspend_status, to_suspend_status-value, to_thread_status, to_thread_status-value,
}
use jdwpy.Constants.Flags.{to_class_status, to_invoke_options}
use jdwpy.Spec.{IdSizesSpec}
use jdwpy.Io.{Platform, Read, Write, lift, return, ◌>>=◌}
use jdwpy.Io.Reader.{read_byte, read_int}
use jdwpy.Io.Writer.{write_byte, write_int}
use jdwpy.Io.Codec.{RoundTrip, RoundTrip-last}
use jdwpy.Io.Primitives.{RoundTrip-byte, RoundTrip-int}
use jdwpy.Io.Fields.{RoundTrip-int_member, RoundTrip-member}

unfoldable pub read_event_kind : Read JdwpEventKind
read_event_kind = do n ← read_byte; lift (to_event_kind n)

abbrev pub write_event_kind : JdwpEventKind → Write
write_event_kind k = write_byte (pos (event_kind_value k))

unfoldable pub read_suspend_policy : Read JdwpSuspendPolicy
read_suspend_policy = do n ← read_byte; lift (to_suspend_policy n)

abbrev pub write_suspend_policy : JdwpSuspendPolicy → Write
write_suspend_policy k = write_byte (pos (suspend_policy_value k))

unfoldable pub read_thread_status : Read JdwpThreadStatus
read_thread_status = do n ← read_int; lift (to_thread_status n)

abbrev pub write_thread_status : JdwpThreadStatus → Write
write_thread_status k = write_int (pos (thread_status_value k))

unfoldable pub read_suspend_status : Read JdwpSuspendStatus
read_suspend_status = do n ← read_int; lift (to_suspend_status n)

abbrev pub write_suspend_status : JdwpSuspendStatus → Write
write_suspend_status k = write_int (pos (suspend_status_value k))

-- A flag is its value, which is never negative.
unfoldable pub read_class_status : Read ℕ
read_class_status = do n ← read_int; return (to_class_status n)

unfoldable pub read_invoke_options : Read ℕ
read_invoke_options = do n ← read_int; return (to_invoke_options n)

abbrev pub write_flag : ℕ → Write
write_flag n = write_int (pos n)

-- A flag whose value an int can hold.
abbrev pub IsFlag : ℕ → Type 0
IsFlag n = n < 2147483648

-- An integer that is one byte, and a byte string.
abbrev pub IsByteInt : ℤ → Type 0
IsByteInt (pos n) = n < 256
IsByteInt (negsuc n) = ⊥

event_kind_value-lt : (t : JdwpEventKind) → event_kind_value t < 256
unfolding event_kind_value
event_kind_value-lt JdwpEventKind.single_step = omega arith
event_kind_value-lt _ = omega arith

suspend_policy_value-lt : (t : JdwpSuspendPolicy) → suspend_policy_value t < 256
unfolding suspend_policy_value
suspend_policy_value-lt JdwpSuspendPolicy.none = omega arith
suspend_policy_value-lt _ = omega arith

thread_status_value-lt : (t : JdwpThreadStatus) → thread_status_value t < 256
unfolding thread_status_value
thread_status_value-lt JdwpThreadStatus.zombie = omega arith
thread_status_value-lt _ = omega arith

suspend_status_value-lt : (t : JdwpSuspendStatus) → suspend_status_value t < 256
unfolding suspend_status_value
suspend_status_value-lt JdwpSuspendStatus.none = omega arith
suspend_status_value-lt _ = omega arith

module _ {p : Platform} {s : IdSizesSpec} where
  pub RoundTrip-event_kind :
      {t : JdwpEventKind} → RoundTrip p s (write_event_kind t) read_event_kind t
  unfolding read_event_kind
  RoundTrip-event_kind {t} =
      RoundTrip-member event_kind_value to_event_kind t (event_kind_value-lt t)
        (to_event_kind-value t)

  pub RoundTrip-suspend_policy :
      {t : JdwpSuspendPolicy} → RoundTrip p s (write_suspend_policy t) read_suspend_policy t
  unfolding read_suspend_policy
  RoundTrip-suspend_policy {t} =
      RoundTrip-member suspend_policy_value to_suspend_policy t (suspend_policy_value-lt t)
        (to_suspend_policy-value t)

  pub RoundTrip-thread_status :
      {t : JdwpThreadStatus} → RoundTrip p s (write_thread_status t) read_thread_status t
  unfolding read_thread_status
  RoundTrip-thread_status {t} =
      RoundTrip-int_member thread_status_value to_thread_status t (thread_status_value-lt t)
        (to_thread_status-value t)

  pub RoundTrip-suspend_status :
      {t : JdwpSuspendStatus} → RoundTrip p s (write_suspend_status t) read_suspend_status t
  unfolding read_suspend_status
  RoundTrip-suspend_status {t} =
      RoundTrip-int_member suspend_status_value to_suspend_status t (suspend_status_value-lt t)
        (to_suspend_status-value t)

  pub RoundTrip-class_status : {n : ℕ} → IsFlag n → RoundTrip p s (write_flag n) read_class_status n
  unfolding read_class_status to_class_status
  RoundTrip-class_status {n} h = RoundTrip-last to_class_status (RoundTrip-int (omega arith))

  pub RoundTrip-invoke_options :
      {n : ℕ} → IsFlag n → RoundTrip p s (write_flag n) read_invoke_options n
  unfolding read_invoke_options to_invoke_options
  RoundTrip-invoke_options {n} h = RoundTrip-last to_invoke_options (RoundTrip-int (omega arith))

  pub RoundTrip-byte_int : {v : ℤ} → IsByteInt v → RoundTrip p s (write_byte v) read_byte v
  RoundTrip-byte_int {v = pos n} h = RoundTrip-byte n h
  RoundTrip-byte_int {v = negsuc n} h = absurd h
