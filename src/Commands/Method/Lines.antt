-- ===== src/Commands/Method/Lines.antt =====
-- src/jdwpy/commands/method.py: LineTable, Bytecodes, IsObsolete.
use jdwpy.Prelude.{All, Bool, List, length}
use jdwpy.Prelude.Int.{pos, ℤ}
use jdwpy.Spec.{IdSizesSpec}
use jdwpy.Io.{Platform, Read, Write, for_each, read_list, return, ◌>>=◌, ◌>>◌}
use jdwpy.Io.Ranges.{IsId, IsInt, IsLong}
use jdwpy.Io.Reader.{
  read_boolean, read_byte, read_int, read_long, read_method_id, read_reference_type_id,
}
use jdwpy.Io.Writer.{
  write_boolean, write_byte, write_int, write_long, write_method_id, write_reference_type_id,
}
use jdwpy.Io.Codec.{RoundTrip, RoundTrip-All, RoundTrip-last, RoundTrip-seq}
use jdwpy.Io.Primitives.{
  RoundTrip-boolean, RoundTrip-int, RoundTrip-long, RoundTrip-method_id,
  RoundTrip-reference_type_id,
}
use jdwpy.Commands.Members.{IsByteInt, RoundTrip-byte_int}

pub record LineTableEntry : Type 0 where
  pub code_index : ℤ
  pub line_number : ℤ

unfoldable pub serialize_line_table_entry : LineTableEntry → Write
serialize_line_table_entry c = do write_long c.code_index; write_int c.line_number

unfoldable pub deserialize_line_table_entry : Read LineTableEntry
deserialize_line_table_entry = do
  code_index ← read_long
  line_number ← read_int
  return (record { code_index = code_index; line_number = line_number })

abbrev pub IsLineTableEntry : Platform → IdSizesSpec → LineTableEntry → Type 0
IsLineTableEntry p s c = IsLong c.code_index × IsInt c.line_number

pub RoundTrip-line_table_entry :
    {p : Platform} {s : IdSizesSpec} {c : LineTableEntry}
    → IsLineTableEntry p s c
    → RoundTrip p s (serialize_line_table_entry c) deserialize_line_table_entry c
unfolding serialize_line_table_entry deserialize_line_table_entry
RoundTrip-line_table_entry h =
    RoundTrip-seq _ (RoundTrip-long h.0) (RoundTrip-last _ (RoundTrip-int h.1))

pub record LineTableResponse : Type 0 where
  pub start_code_index : ℤ
  pub end_code_index : ℤ
  pub lines : List LineTableEntry

unfoldable pub serialize_line_table_response : LineTableResponse → Write
serialize_line_table_response c = do
  write_long c.start_code_index
  write_long c.end_code_index
  write_int (pos (length c.lines))
  for_each c.lines serialize_line_table_entry

unfoldable pub deserialize_line_table_response : Read LineTableResponse
deserialize_line_table_response = do
  start_code_index ← read_long
  end_code_index ← read_long
  num ← read_int
  lines ← read_list num deserialize_line_table_entry
  return (record {
    start_code_index = start_code_index;
    end_code_index = end_code_index;
    lines = lines;
  })

abbrev pub IsLineTableResponse : Platform → IdSizesSpec → LineTableResponse → Type 0
IsLineTableResponse p s c =
    IsLong c.start_code_index
    × IsLong c.end_code_index
    × IsInt (pos (length c.lines))
    × All (IsLineTableEntry p s) c.lines

pub RoundTrip-line_table_response :
    {p : Platform} {s : IdSizesSpec} {c : LineTableResponse}
    → IsLineTableResponse p s c
    → RoundTrip p s (serialize_line_table_response c) deserialize_line_table_response c
unfolding serialize_line_table_response deserialize_line_table_response
RoundTrip-line_table_response {p = p} {s = s} {c = c} h = RoundTrip-seq _ (RoundTrip-long h.0) (
    RoundTrip-seq _ (RoundTrip-long h.1) (
      RoundTrip-seq _ (RoundTrip-int h.2) (
        RoundTrip-last _ (
          RoundTrip-All serialize_line_table_entry deserialize_line_table_entry
            (IsLineTableEntry p s) c.lines (λ x h. RoundTrip-line_table_entry h) h.3))))

pub record LineTableCommand : Type 0 where
  pub ref_type : ℤ
  pub method : ℤ

unfoldable pub serialize_line_table_command : LineTableCommand → Write
serialize_line_table_command c = do write_reference_type_id c.ref_type; write_method_id c.method

unfoldable pub deserialize_line_table_command : Read LineTableCommand
deserialize_line_table_command = do
  ref_type ← read_reference_type_id
  method ← read_method_id
  return (record { ref_type = ref_type; method = method })

abbrev pub IsLineTableCommand : Platform → IdSizesSpec → LineTableCommand → Type 0
IsLineTableCommand p s c =
    IsId s.reference_type_id_struct c.ref_type × IsId s.method_id_struct c.method

pub RoundTrip-line_table_command :
    {p : Platform} {s : IdSizesSpec} {c : LineTableCommand}
    → IsLineTableCommand p s c
    → RoundTrip p s (serialize_line_table_command c) deserialize_line_table_command c
unfolding serialize_line_table_command deserialize_line_table_command
RoundTrip-line_table_command h =
    RoundTrip-seq _ (RoundTrip-reference_type_id h.0) (RoundTrip-last _ (RoundTrip-method_id h.1))

pub record BytecodesResponse : Type 0 where
  pub bytecodes : List ℤ

unfoldable pub serialize_bytecodes_response : BytecodesResponse → Write
serialize_bytecodes_response c = do
  write_int (pos (length c.bytecodes))
  for_each c.bytecodes write_byte

unfoldable pub deserialize_bytecodes_response : Read BytecodesResponse
deserialize_bytecodes_response = do
  num ← read_int
  b ← read_list num read_byte
  return (record { bytecodes = b })

abbrev pub IsBytecodesResponse : Platform → IdSizesSpec → BytecodesResponse → Type 0
IsBytecodesResponse p s c = IsInt (pos (length c.bytecodes)) × All (λ x. IsByteInt x) c.bytecodes

pub RoundTrip-bytecodes_response :
    {p : Platform} {s : IdSizesSpec} {c : BytecodesResponse}
    → IsBytecodesResponse p s c
    → RoundTrip p s (serialize_bytecodes_response c) deserialize_bytecodes_response c
unfolding serialize_bytecodes_response deserialize_bytecodes_response
RoundTrip-bytecodes_response {c = c} h = RoundTrip-seq _ (RoundTrip-int h.0) (
    RoundTrip-last _ (
      RoundTrip-All write_byte read_byte (λ x. IsByteInt x) c.bytecodes
        (λ x h. RoundTrip-byte_int h) h.1))

pub record BytecodesCommand : Type 0 where
  pub ref_type : ℤ
  pub method : ℤ

unfoldable pub serialize_bytecodes_command : BytecodesCommand → Write
serialize_bytecodes_command c = do write_reference_type_id c.ref_type; write_method_id c.method

unfoldable pub deserialize_bytecodes_command : Read BytecodesCommand
deserialize_bytecodes_command = do
  ref_type ← read_reference_type_id
  method ← read_method_id
  return (record { ref_type = ref_type; method = method })

abbrev pub IsBytecodesCommand : Platform → IdSizesSpec → BytecodesCommand → Type 0
IsBytecodesCommand p s c =
    IsId s.reference_type_id_struct c.ref_type × IsId s.method_id_struct c.method

pub RoundTrip-bytecodes_command :
    {p : Platform} {s : IdSizesSpec} {c : BytecodesCommand}
    → IsBytecodesCommand p s c
    → RoundTrip p s (serialize_bytecodes_command c) deserialize_bytecodes_command c
unfolding serialize_bytecodes_command deserialize_bytecodes_command
RoundTrip-bytecodes_command h =
    RoundTrip-seq _ (RoundTrip-reference_type_id h.0) (RoundTrip-last _ (RoundTrip-method_id h.1))

pub record IsObsoleteResponse : Type 0 where
  pub is_obsolete : Bool

unfoldable pub serialize_is_obsolete_response : IsObsoleteResponse → Write
serialize_is_obsolete_response c = write_boolean c.is_obsolete

unfoldable pub deserialize_is_obsolete_response : Read IsObsoleteResponse
deserialize_is_obsolete_response = do
  is_obsolete ← read_boolean
  return (record { is_obsolete = is_obsolete })

pub RoundTrip-is_obsolete_response :
    {p : Platform} {s : IdSizesSpec} {c : IsObsoleteResponse}
    → RoundTrip p s (serialize_is_obsolete_response c) deserialize_is_obsolete_response c
unfolding serialize_is_obsolete_response deserialize_is_obsolete_response
RoundTrip-is_obsolete_response = RoundTrip-last _ RoundTrip-boolean

pub record IsObsoleteCommand : Type 0 where
  pub ref_type : ℤ
  pub method : ℤ

unfoldable pub serialize_is_obsolete_command : IsObsoleteCommand → Write
serialize_is_obsolete_command c = do write_reference_type_id c.ref_type; write_method_id c.method

unfoldable pub deserialize_is_obsolete_command : Read IsObsoleteCommand
deserialize_is_obsolete_command = do
  ref_type ← read_reference_type_id
  method ← read_method_id
  return (record { ref_type = ref_type; method = method })

abbrev pub IsIsObsoleteCommand : Platform → IdSizesSpec → IsObsoleteCommand → Type 0
IsIsObsoleteCommand p s c =
    IsId s.reference_type_id_struct c.ref_type × IsId s.method_id_struct c.method

pub RoundTrip-is_obsolete_command :
    {p : Platform} {s : IdSizesSpec} {c : IsObsoleteCommand}
    → IsIsObsoleteCommand p s c
    → RoundTrip p s (serialize_is_obsolete_command c) deserialize_is_obsolete_command c
unfolding serialize_is_obsolete_command deserialize_is_obsolete_command
RoundTrip-is_obsolete_command h =
    RoundTrip-seq _ (RoundTrip-reference_type_id h.0) (RoundTrip-last _ (RoundTrip-method_id h.1))
