-- ===== src/Constants/EventKind.antt =====
-- JdwpEventKind of src/jdwpy/constants.py.
use jdwpy.Prelude.{List, [], refl, ℕ, ◌∷◌, ◌≡◌}
use jdwpy.Prelude.Int.{pos, ℤ}
use jdwpy.Struct.{Result, ok}
use jdwpy.Constants.{to_member}

pub data JdwpEventKind : Type 0 where
  single_step breakpoint frame_pop exception user_defined thread_start thread_death class_prepare
        class_unload class_load field_access field_modification exception_catch method_entry
        method_exit method_exit_with_return_value monitor_contended_enter monitor_contended_entered
        monitor_wait monitor_waited vm_start vm_death :
      JdwpEventKind

unfoldable pub event_kind_value : JdwpEventKind → ℕ
event_kind_value single_step = 1
event_kind_value breakpoint = 2
event_kind_value frame_pop = 3
event_kind_value exception = 4
event_kind_value user_defined = 5
event_kind_value thread_start = 6
event_kind_value thread_death = 7
event_kind_value class_prepare = 8
event_kind_value class_unload = 9
event_kind_value class_load = 10
event_kind_value field_access = 20
event_kind_value field_modification = 21
event_kind_value exception_catch = 30
event_kind_value method_entry = 40
event_kind_value method_exit = 41
event_kind_value method_exit_with_return_value = 42
event_kind_value monitor_contended_enter = 43
event_kind_value monitor_contended_entered = 44
event_kind_value monitor_wait = 45
event_kind_value monitor_waited = 46
event_kind_value vm_start = 90
event_kind_value vm_death = 99

abbrev pub event_kind_members : List JdwpEventKind
event_kind_members =
    single_step ∷ breakpoint ∷ frame_pop ∷ exception ∷ user_defined ∷ thread_start ∷ thread_death
    ∷ class_prepare ∷ class_unload ∷ class_load ∷ field_access ∷ field_modification
    ∷ exception_catch ∷ method_entry ∷ method_exit ∷ method_exit_with_return_value
    ∷ monitor_contended_enter ∷ monitor_contended_entered ∷ monitor_wait ∷ monitor_waited ∷ vm_start
    ∷ vm_death ∷ []

-- `JdwpEventKind(v)`
unfoldable pub to_event_kind : ℤ → Result JdwpEventKind
unfolding to_member event_kind_value
to_event_kind v = to_member event_kind_value event_kind_members v

pub to_event_kind-value : (t : JdwpEventKind) → to_event_kind (pos (event_kind_value t)) ≡ ok t
unfolding to_event_kind
to_event_kind-value single_step = refl
to_event_kind-value _ = refl
