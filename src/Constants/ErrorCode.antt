-- ===== src/Constants/ErrorCode.antt =====
-- JdwpErrorCode of src/jdwpy/constants.py.
use jdwpy.Prelude.{List, Option, [], refl, some, ℕ, ◌∷◌, ◌≡◌}
use jdwpy.Prelude.Int.{pos, ℤ}
use jdwpy.Struct.{Result, err, ok}
use jdwpy.Constants.{to_member}

pub data JdwpErrorCode : Type 0 where
  none invalid_thread invalid_thread_group invalid_priority thread_not_suspended thread_suspended
        thread_not_alive invalid_object invalid_class class_not_prepared invalid_methodid
        invalid_location invalid_fieldid invalid_frameid no_more_frames opaque_frame
        not_current_frame type_mismatch invalid_slot duplicate not_found invalid_module
        invalid_monitor not_monitor_owner interrupt invalid_class_format circular_class_definition
        fails_verification add_method_not_implemented schema_change_not_implemented
        invalid_typestate hierarchy_change_not_implemented delete_method_not_implemented
        unsupported_version names_dont_match class_modifiers_change_not_implemented
        method_modifiers_change_not_implemented class_attribute_change_not_implemented
        not_implemented null_pointer absent_information invalid_event_type illegal_argument
        out_of_memory access_denied vm_dead internal unattached_thread invalid_tag already_invoking
        invalid_index invalid_length invalid_string invalid_class_loader invalid_array
        transport_load transport_init native_method invalid_count :
      JdwpErrorCode

unfoldable pub error_code_value : JdwpErrorCode → ℕ
error_code_value none = 0
error_code_value invalid_thread = 10
error_code_value invalid_thread_group = 11
error_code_value invalid_priority = 12
error_code_value thread_not_suspended = 13
error_code_value thread_suspended = 14
error_code_value thread_not_alive = 15
error_code_value invalid_object = 20
error_code_value invalid_class = 21
error_code_value class_not_prepared = 22
error_code_value invalid_methodid = 23
error_code_value invalid_location = 24
error_code_value invalid_fieldid = 25
error_code_value invalid_frameid = 30
error_code_value no_more_frames = 31
error_code_value opaque_frame = 32
error_code_value not_current_frame = 33
error_code_value type_mismatch = 34
error_code_value invalid_slot = 35
error_code_value duplicate = 40
error_code_value not_found = 41
error_code_value invalid_module = 42
error_code_value invalid_monitor = 50
error_code_value not_monitor_owner = 51
error_code_value interrupt = 52
error_code_value invalid_class_format = 60
error_code_value circular_class_definition = 61
error_code_value fails_verification = 62
error_code_value add_method_not_implemented = 63
error_code_value schema_change_not_implemented = 64
error_code_value invalid_typestate = 65
error_code_value hierarchy_change_not_implemented = 66
error_code_value delete_method_not_implemented = 67
error_code_value unsupported_version = 68
error_code_value names_dont_match = 69
error_code_value class_modifiers_change_not_implemented = 70
error_code_value method_modifiers_change_not_implemented = 71
error_code_value class_attribute_change_not_implemented = 72
error_code_value not_implemented = 99
error_code_value null_pointer = 100
error_code_value absent_information = 101
error_code_value invalid_event_type = 102
error_code_value illegal_argument = 103
error_code_value out_of_memory = 110
error_code_value access_denied = 111
error_code_value vm_dead = 112
error_code_value internal = 113
error_code_value unattached_thread = 115
error_code_value invalid_tag = 500
error_code_value already_invoking = 502
error_code_value invalid_index = 503
error_code_value invalid_length = 504
error_code_value invalid_string = 506
error_code_value invalid_class_loader = 507
error_code_value invalid_array = 508
error_code_value transport_load = 509
error_code_value transport_init = 510
error_code_value native_method = 511
error_code_value invalid_count = 512

abbrev pub error_code_members : List JdwpErrorCode
error_code_members =
    none ∷ invalid_thread ∷ invalid_thread_group ∷ invalid_priority ∷ thread_not_suspended
    ∷ thread_suspended ∷ thread_not_alive ∷ invalid_object ∷ invalid_class ∷ class_not_prepared
    ∷ invalid_methodid ∷ invalid_location ∷ invalid_fieldid ∷ invalid_frameid ∷ no_more_frames
    ∷ opaque_frame ∷ not_current_frame ∷ type_mismatch ∷ invalid_slot ∷ duplicate ∷ not_found
    ∷ invalid_module ∷ invalid_monitor ∷ not_monitor_owner ∷ interrupt ∷ invalid_class_format
    ∷ circular_class_definition ∷ fails_verification ∷ add_method_not_implemented
    ∷ schema_change_not_implemented ∷ invalid_typestate ∷ hierarchy_change_not_implemented
    ∷ delete_method_not_implemented ∷ unsupported_version ∷ names_dont_match
    ∷ class_modifiers_change_not_implemented ∷ method_modifiers_change_not_implemented
    ∷ class_attribute_change_not_implemented ∷ not_implemented ∷ null_pointer ∷ absent_information
    ∷ invalid_event_type ∷ illegal_argument ∷ out_of_memory ∷ access_denied ∷ vm_dead ∷ internal
    ∷ unattached_thread ∷ invalid_tag ∷ already_invoking ∷ invalid_index ∷ invalid_length
    ∷ invalid_string ∷ invalid_class_loader ∷ invalid_array ∷ transport_load ∷ transport_init
    ∷ native_method ∷ invalid_count ∷ []

-- `JdwpErrorCode(v)`
unfoldable pub to_error_code : ℤ → Result JdwpErrorCode
unfolding to_member error_code_value
to_error_code v = to_member error_code_value error_code_members v

pub to_error_code-value : (t : JdwpErrorCode) → to_error_code (pos (error_code_value t)) ≡ ok t
unfolding to_error_code
to_error_code-value none = refl
to_error_code-value _ = refl

-- `JdwpErrorCode.from_int`
unfoldable pub from_int : ℤ → Option JdwpErrorCode
unfolding to_error_code
from_int v = elim (to_error_code v) [ ok code ↦ some code | err _ ↦ Option.none ]
