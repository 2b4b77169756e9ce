-- ===== src/Commands/StackFrame/Values.antt =====
-- src/jdwpy/commands/stack_frame.py: GetValues, SetValues.
use jdwpy.Prelude.{All, List, length}
use jdwpy.Prelude.Int.{pos, ℤ}
use jdwpy.Constants.Tag.{JdwpTag}
use jdwpy.Spec.{IdSizesSpec, JdwpValue}
use jdwpy.Io.{Platform, Read, Write, for_each, read_list, return, skip, ◌>>=◌, ◌>>◌}
use jdwpy.Io.Ranges.{IsId, IsInt}
use jdwpy.Io.Reader.{read_frame_id, read_int, read_tag, read_thread_id}
use jdwpy.Io.Writer.{write_frame_id, write_int, write_tag, write_thread_id}
use jdwpy.Io.Values.{read_value, write_value}
use jdwpy.Io.Codec.{RoundTrip, RoundTrip-All, RoundTrip-last, RoundTrip-return, RoundTrip-seq}
use jdwpy.Io.Primitives.{RoundTrip-frame_id, RoundTrip-int, RoundTrip-object_id}
use jdwpy.Io.Fields.{IsValue, RoundTrip-tag, RoundTrip-value}

pub record GetValuesRequestSlot : Type 0 where
  pub slot : ℤ
  pub sig_byte : JdwpTag

unfoldable pub serialize_get_values_request_slot : GetValuesRequestSlot → Write
serialize_get_values_request_slot c = do write_int c.slot; write_tag c.sig_byte

unfoldable pub deserialize_get_values_request_slot : Read GetValuesRequestSlot
deserialize_get_values_request_slot = do
  slot ← read_int
  sig_byte ← read_tag
  return (record { slot = slot; sig_byte = sig_byte })

abbrev pub IsGetValuesRequestSlot : Platform → IdSizesSpec → GetValuesRequestSlot → Type 0
IsGetValuesRequestSlot p s c = IsInt c.slot

pub RoundTrip-get_values_request_slot :
    {p : Platform} {s : IdSizesSpec} {c : GetValuesRequestSlot}
    → IsGetValuesRequestSlot p s c
    → RoundTrip p s (serialize_get_values_request_slot c) deserialize_get_values_request_slot c
unfolding serialize_get_values_request_slot deserialize_get_values_request_slot
RoundTrip-get_values_request_slot h =
    RoundTrip-seq _ (RoundTrip-int h) (RoundTrip-last _ RoundTrip-tag)

pub record GetValuesResponse : Type 0 where
  pub values : List JdwpValue

unfoldable pub serialize_get_values_response : GetValuesResponse → Write
serialize_get_values_response c = do
  write_int (pos (length c.values))
  for_each c.values write_value

unfoldable pub deserialize_get_values_response : Read GetValuesResponse
deserialize_get_values_response = do
  num ← read_int
  values ← read_list num read_value
  return (record { values = values })

abbrev pub IsGetValuesResponse : Platform → IdSizesSpec → GetValuesResponse → Type 0
IsGetValuesResponse p s c = IsInt (pos (length c.values)) × All (λ x. IsValue p s x) c.values

pub RoundTrip-get_values_response :
    {p : Platform} {s : IdSizesSpec} {c : GetValuesResponse}
    → IsGetValuesResponse p s c
    → RoundTrip p s (serialize_get_values_response c) deserialize_get_values_response c
unfolding serialize_get_values_response deserialize_get_values_response
RoundTrip-get_values_response {p = p} {s = s} {c = c} h = RoundTrip-seq _ (RoundTrip-int h.0) (
    RoundTrip-last _ (
      RoundTrip-All write_value read_value (λ x. IsValue p s x) c.values (λ x h. RoundTrip-value h)
        h.1))

pub record GetValuesCommand : Type 0 where
  pub thread : ℤ
  pub frame : ℤ
  pub slots : List GetValuesRequestSlot

unfoldable pub serialize_get_values_command : GetValuesCommand → Write
serialize_get_values_command c = do
  write_thread_id c.thread
  write_frame_id c.frame
  write_int (pos (length c.slots))
  for_each c.slots serialize_get_values_request_slot

unfoldable pub deserialize_get_values_command : Read GetValuesCommand
deserialize_get_values_command = do
  thread ← read_thread_id
  frame ← read_frame_id
  num ← read_int
  slots ← read_list num deserialize_get_values_request_slot
  return (record { thread = thread; frame = frame; slots = slots })

abbrev pub IsGetValuesCommand : Platform → IdSizesSpec → GetValuesCommand → Type 0
IsGetValuesCommand p s c =
    IsId s.object_id_struct c.thread
    × IsId s.frame_id_struct c.frame
    × IsInt (pos (length c.slots))
    × All (IsGetValuesRequestSlot p s) c.slots

pub RoundTrip-get_values_command :
    {p : Platform} {s : IdSizesSpec} {c : GetValuesCommand}
    → IsGetValuesCommand p s c
    → RoundTrip p s (serialize_get_values_command c) deserialize_get_values_command c
unfolding serialize_get_values_command deserialize_get_values_command
RoundTrip-get_values_command {p = p} {s = s} {c = c} h = RoundTrip-seq _ (RoundTrip-object_id h.0) (
    RoundTrip-seq _ (RoundTrip-frame_id h.1) (
      RoundTrip-seq _ (RoundTrip-int h.2) (
        RoundTrip-last _ (
          RoundTrip-All serialize_get_values_request_slot deserialize_get_values_request_slot
            (IsGetValuesRequestSlot p s) c.slots (λ x h. RoundTrip-get_values_request_slot h)
            h.3))))

pub record SetValuesRequestSlot : Type 0 where
  pub slot : ℤ
  pub value : JdwpValue

unfoldable pub serialize_set_values_request_slot : SetValuesRequestSlot → Write
serialize_set_values_request_slot c = do write_int c.slot; write_value c.value

unfoldable pub deserialize_set_values_request_slot : Read SetValuesRequestSlot
deserialize_set_values_request_slot = do
  slot ← read_int
  value ← read_value
  return (record { slot = slot; value = value })

abbrev pub IsSetValuesRequestSlot : Platform → IdSizesSpec → SetValuesRequestSlot → Type 0
IsSetValuesRequestSlot p s c = IsInt c.slot × IsValue p s c.value

pub RoundTrip-set_values_request_slot :
    {p : Platform} {s : IdSizesSpec} {c : SetValuesRequestSlot}
    → IsSetValuesRequestSlot p s c
    → RoundTrip p s (serialize_set_values_request_slot c) deserialize_set_values_request_slot c
unfolding serialize_set_values_request_slot deserialize_set_values_request_slot
RoundTrip-set_values_request_slot h =
    RoundTrip-seq _ (RoundTrip-int h.0) (RoundTrip-last _ (RoundTrip-value h.1))

pub data SetValuesResponse : Type 0 where
  set_values_response : SetValuesResponse

unfoldable pub serialize_set_values_response : SetValuesResponse → Write
serialize_set_values_response _ = skip

unfoldable pub deserialize_set_values_response : Read SetValuesResponse
deserialize_set_values_response = return set_values_response

pub RoundTrip-set_values_response :
    {p : Platform} {s : IdSizesSpec} (c : SetValuesResponse)
    → RoundTrip p s (serialize_set_values_response c) deserialize_set_values_response c
unfolding serialize_set_values_response deserialize_set_values_response
RoundTrip-set_values_response set_values_response = RoundTrip-return set_values_response

pub record SetValuesCommand : Type 0 where
  pub thread : ℤ
  pub frame : ℤ
  pub slots : List SetValuesRequestSlot

unfoldable pub serialize_set_values_command : SetValuesCommand → Write
serialize_set_values_command c = do
  write_thread_id c.thread
  write_frame_id c.frame
  write_int (pos (length c.slots))
  for_each c.slots serialize_set_values_request_slot

unfoldable pub deserialize_set_values_command : Read SetValuesCommand
deserialize_set_values_command = do
  thread ← read_thread_id
  frame ← read_frame_id
  num ← read_int
  slots ← read_list num deserialize_set_values_request_slot
  return (record { thread = thread; frame = frame; slots = slots })

abbrev pub IsSetValuesCommand : Platform → IdSizesSpec → SetValuesCommand → Type 0
IsSetValuesCommand p s c =
    IsId s.object_id_struct c.thread
    × IsId s.frame_id_struct c.frame
    × IsInt (pos (length c.slots))
    × All (IsSetValuesRequestSlot p s) c.slots

pub RoundTrip-set_values_command :
    {p : Platform} {s : IdSizesSpec} {c : SetValuesCommand}
    → IsSetValuesCommand p s c
    → RoundTrip p s (serialize_set_values_command c) deserialize_set_values_command c
unfolding serialize_set_values_command deserialize_set_values_command
RoundTrip-set_values_command {p = p} {s = s} {c = c} h = RoundTrip-seq _ (RoundTrip-object_id h.0) (
    RoundTrip-seq _ (RoundTrip-frame_id h.1) (
      RoundTrip-seq _ (RoundTrip-int h.2) (
        RoundTrip-last _ (
          RoundTrip-All serialize_set_values_request_slot deserialize_set_values_request_slot
            (IsSetValuesRequestSlot p s) c.slots (λ x h. RoundTrip-set_values_request_slot h)
            h.3))))
