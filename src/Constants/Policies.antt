-- ===== src/Constants/Policies.antt =====
-- JdwpSuspendPolicy, JdwpThreadStatus and JdwpSuspendStatus of src/jdwpy/constants.py.
use jdwpy.Prelude.{List, [], refl, ℕ, ◌∷◌, ◌≡◌}
use jdwpy.Prelude.Int.{pos, ℤ}
use jdwpy.Struct.{Result, ok}
use jdwpy.Constants.{to_member}

pub data JdwpSuspendPolicy : Type 0 where
  none event_thread all : JdwpSuspendPolicy

unfoldable pub suspend_policy_value : JdwpSuspendPolicy → ℕ
suspend_policy_value none = 0
suspend_policy_value event_thread = 1
suspend_policy_value all = 2

abbrev pub suspend_policy_members : List JdwpSuspendPolicy
suspend_policy_members = none ∷ event_thread ∷ all ∷ []

-- `JdwpSuspendPolicy(v)`
unfoldable pub to_suspend_policy : ℤ → Result JdwpSuspendPolicy
unfolding to_member suspend_policy_value
to_suspend_policy v = to_member suspend_policy_value suspend_policy_members v

pub to_suspend_policy-value :
    (t : JdwpSuspendPolicy) → to_suspend_policy (pos (suspend_policy_value t)) ≡ ok t
unfolding to_suspend_policy
to_suspend_policy-value none = refl
to_suspend_policy-value _ = refl

pub data JdwpThreadStatus : Type 0 where
  zombie running sleeping monitor wait : JdwpThreadStatus

unfoldable pub thread_status_value : JdwpThreadStatus → ℕ
thread_status_value zombie = 0
thread_status_value running = 1
thread_status_value sleeping = 2
thread_status_value monitor = 3
thread_status_value wait = 4

abbrev pub thread_status_members : List JdwpThreadStatus
thread_status_members = zombie ∷ running ∷ sleeping ∷ monitor ∷ wait ∷ []

-- `JdwpThreadStatus(v)`
unfoldable pub to_thread_status : ℤ → Result JdwpThreadStatus
unfolding to_member thread_status_value
to_thread_status v = to_member thread_status_value thread_status_members v

pub to_thread_status-value :
    (t : JdwpThreadStatus) → to_thread_status (pos (thread_status_value t)) ≡ ok t
unfolding to_thread_status
to_thread_status-value zombie = refl
to_thread_status-value _ = refl

pub data JdwpSuspendStatus : Type 0 where
  none suspended : JdwpSuspendStatus

unfoldable pub suspend_status_value : JdwpSuspendStatus → ℕ
suspend_status_value none = 0
suspend_status_value suspended = 1

abbrev pub suspend_status_members : List JdwpSuspendStatus
suspend_status_members = none ∷ suspended ∷ []

-- `JdwpSuspendStatus(v)`
unfoldable pub to_suspend_status : ℤ → Result JdwpSuspendStatus
unfolding to_member suspend_status_value
to_suspend_status v = to_member suspend_status_value suspend_status_members v

pub to_suspend_status-value :
    (t : JdwpSuspendStatus) → to_suspend_status (pos (suspend_status_value t)) ≡ ok t
unfolding to_suspend_status
to_suspend_status-value none = refl
to_suspend_status-value _ = refl
