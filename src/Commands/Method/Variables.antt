-- ===== src/Commands/Method/Variables.antt =====
-- src/jdwpy/commands/method.py: VariableTable, VariableTableWithGeneric.
use jdwpy.Prelude.{All, List, length}
use jdwpy.Prelude.Int.{pos, ℤ}
use jdwpy.Utf8.{Str}
use jdwpy.Spec.{IdSizesSpec}
use jdwpy.Io.{Platform, Read, Write, for_each, read_list, return, ◌>>=◌, ◌>>◌}
use jdwpy.Io.Ranges.{IsId, IsInt, IsLong, IsString}
use jdwpy.Io.Reader.{read_int, read_long, read_method_id, read_reference_type_id, read_string}
use jdwpy.Io.Writer.{write_int, write_long, write_method_id, write_reference_type_id, write_string}
use jdwpy.Io.Codec.{RoundTrip, RoundTrip-All, RoundTrip-last, RoundTrip-seq}
use jdwpy.Io.Primitives.{
  RoundTrip-int, RoundTrip-long, RoundTrip-method_id, RoundTrip-reference_type_id, RoundTrip-string,
}

pub record VariableTableEntry : Type 0 where
  pub code_index : ℤ
  pub name : Str
  pub signature : Str
  pub length : ℤ
  pub slot : ℤ

unfoldable pub serialize_variable_table_entry : VariableTableEntry → Write
serialize_variable_table_entry c = do
  write_long c.code_index
  write_string c.name
  write_string c.signature
  write_int c.length
  write_int c.slot

unfoldable pub deserialize_variable_table_entry : Read VariableTableEntry
deserialize_variable_table_entry = do
  code_index ← read_long
  name ← read_string
  signature ← read_string
  length ← read_int
  slot ← read_int
  return (record {
    code_index = code_index;
    name = name;
    signature = signature;
    length = length;
    slot = slot;
  })

abbrev pub IsVariableTableEntry : Platform → IdSizesSpec → VariableTableEntry → Type 0
IsVariableTableEntry p s c =
    IsLong c.code_index × IsString c.name × IsString c.signature × IsInt c.length × IsInt c.slot

pub RoundTrip-variable_table_entry :
    {p : Platform} {s : IdSizesSpec} {c : VariableTableEntry}
    → IsVariableTableEntry p s c
    → RoundTrip p s (serialize_variable_table_entry c) deserialize_variable_table_entry c
unfolding serialize_variable_table_entry deserialize_variable_table_entry
RoundTrip-variable_table_entry h = RoundTrip-seq _ (RoundTrip-long h.0) (
    RoundTrip-seq _ (RoundTrip-string h.1) (
      RoundTrip-seq _ (RoundTrip-string h.2)
        (RoundTrip-seq _ (RoundTrip-int h.3) (RoundTrip-last _ (RoundTrip-int h.4)))))

pub record VariableTableResponse : Type 0 where
  pub arg_cnt : ℤ
  pub slots : List VariableTableEntry

unfoldable pub serialize_variable_table_response : VariableTableResponse → Write
serialize_variable_table_response c = do
  write_int c.arg_cnt
  write_int (pos (length c.slots))
  for_each c.slots serialize_variable_table_entry

unfoldable pub deserialize_variable_table_response : Read VariableTableResponse
deserialize_variable_table_response = do
  arg_cnt ← read_int
  num ← read_int
  slots ← read_list num deserialize_variable_table_entry
  return (record { arg_cnt = arg_cnt; slots = slots })

abbrev pub IsVariableTableResponse : Platform → IdSizesSpec → VariableTableResponse → Type 0
IsVariableTableResponse p s c =
    IsInt c.arg_cnt × IsInt (pos (length c.slots)) × All (IsVariableTableEntry p s) c.slots

pub RoundTrip-variable_table_response :
    {p : Platform} {s : IdSizesSpec} {c : VariableTableResponse}
    → IsVariableTableResponse p s c
    → RoundTrip p s (serialize_variable_table_response c) deserialize_variable_table_response c
unfolding serialize_variable_table_response deserialize_variable_table_response
RoundTrip-variable_table_response {p = p} {s = s} {c = c} h = RoundTrip-seq _ (RoundTrip-int h.0) (
    RoundTrip-seq _ (RoundTrip-int h.1) (
      RoundTrip-last _ (
        RoundTrip-All serialize_variable_table_entry deserialize_variable_table_entry
          (IsVariableTableEntry p s) c.slots (λ x h. RoundTrip-variable_table_entry h) h.2)))

pub record VariableTableCommand : Type 0 where
  pub ref_type : ℤ
  pub method : ℤ

unfoldable pub serialize_variable_table_command : VariableTableCommand → Write
serialize_variable_table_command c = do write_reference_type_id c.ref_type; write_method_id c.method

unfoldable pub deserialize_variable_table_command : Read VariableTableCommand
deserialize_variable_table_command = do
  ref_type ← read_reference_type_id
  method ← read_method_id
  return (record { ref_type = ref_type; method = method })

abbrev pub IsVariableTableCommand : Platform → IdSizesSpec → VariableTableCommand → Type 0
IsVariableTableCommand p s c =
    IsId s.reference_type_id_struct c.ref_type × IsId s.method_id_struct c.method

pub RoundTrip-variable_table_command :
    {p : Platform} {s : IdSizesSpec} {c : VariableTableCommand}
    → IsVariableTableCommand p s c
    → RoundTrip p s (serialize_variable_table_command c) deserialize_variable_table_command c
unfolding serialize_variable_table_command deserialize_variable_table_command
RoundTrip-variable_table_command h =
    RoundTrip-seq _ (RoundTrip-reference_type_id h.0) (RoundTrip-last _ (RoundTrip-method_id h.1))

pub record VariableTableWithGenericEntry : Type 0 where
  pub code_index : ℤ
  pub name : Str
  pub signature : Str
  pub generic_signature : Str
  pub length : ℤ
  pub slot : ℤ

unfoldable pub serialize_variable_table_with_generic_entry : VariableTableWithGenericEntry → Write
serialize_variable_table_with_generic_entry c = do
  write_long c.code_index
  write_string c.name
  write_string c.signature
  write_string c.generic_signature
  write_int c.length
  write_int c.slot

unfoldable pub deserialize_variable_table_with_generic_entry : Read VariableTableWithGenericEntry
deserialize_variable_table_with_generic_entry = do
  code_index ← read_long
  name ← read_string
  signature ← read_string
  generic_signature ← read_string
  length ← read_int
  slot ← read_int
  return (record {
    code_index = code_index;
    name = name;
    signature = signature;
    generic_signature = generic_signature;
    length = length;
    slot = slot;
  })

abbrev pub IsVariableTableWithGenericEntry :
    Platform → IdSizesSpec → VariableTableWithGenericEntry → Type 0
IsVariableTableWithGenericEntry p s c =
    IsLong c.code_index
    × IsString c.name
    × IsString c.signature
    × IsString c.generic_signature
    × IsInt c.length
    × IsInt c.slot

pub RoundTrip-variable_table_with_generic_entry :
    {p : Platform} {s : IdSizesSpec} {c : VariableTableWithGenericEntry}
    → IsVariableTableWithGenericEntry p s c
    → RoundTrip p s
        (serialize_variable_table_with_generic_entry c)
        deserialize_variable_table_with_generic_entry
        c
unfolding serialize_variable_table_with_generic_entry deserialize_variable_table_with_generic_entry
RoundTrip-variable_table_with_generic_entry h = RoundTrip-seq _ (RoundTrip-long h.0) (
    RoundTrip-seq _ (RoundTrip-string h.1) (
      RoundTrip-seq _ (RoundTrip-string h.2) (
        RoundTrip-seq _ (RoundTrip-string h.3)
          (RoundTrip-seq _ (RoundTrip-int h.4) (RoundTrip-last _ (RoundTrip-int h.5))))))

pub record VariableTableWithGenericResponse : Type 0 where
  pub arg_cnt : ℤ
  pub slots : List VariableTableWithGenericEntry

unfoldable pub serialize_variable_table_with_generic_response :
    VariableTableWithGenericResponse → Write
serialize_variable_table_with_generic_response c = do
  write_int c.arg_cnt
  write_int (pos (length c.slots))
  for_each c.slots serialize_variable_table_with_generic_entry

unfoldable pub deserialize_variable_table_with_generic_response :
    Read VariableTableWithGenericResponse
deserialize_variable_table_with_generic_response = do
  arg_cnt ← read_int
  num ← read_int
  slots ← read_list num deserialize_variable_table_with_generic_entry
  return (record { arg_cnt = arg_cnt; slots = slots })

abbrev pub IsVariableTableWithGenericResponse :
    Platform → IdSizesSpec → VariableTableWithGenericResponse → Type 0
IsVariableTableWithGenericResponse p s c =
    IsInt c.arg_cnt
    × IsInt (pos (length c.slots))
    × All (IsVariableTableWithGenericEntry p s) c.slots

pub RoundTrip-variable_table_with_generic_response :
    {p : Platform} {s : IdSizesSpec} {c : VariableTableWithGenericResponse}
    → IsVariableTableWithGenericResponse p s c
    → RoundTrip p s
        (serialize_variable_table_with_generic_response c)
        deserialize_variable_table_with_generic_response
        c
unfolding serialize_variable_table_with_generic_response
    deserialize_variable_table_with_generic_response
RoundTrip-variable_table_with_generic_response {p = p} {s = s} {c = c} h =
    RoundTrip-seq _ (RoundTrip-int h.0) (
      RoundTrip-seq _ (RoundTrip-int h.1) (
        RoundTrip-last _ (
          RoundTrip-All serialize_variable_table_with_generic_entry
            deserialize_variable_table_with_generic_entry (IsVariableTableWithGenericEntry p s)
            c.slots (λ x h. RoundTrip-variable_table_with_generic_entry h) h.2)))

pub record VariableTableWithGenericCommand : Type 0 where
  pub ref_type : ℤ
  pub method : ℤ

unfoldable pub serialize_variable_table_with_generic_command :
    VariableTableWithGenericCommand → Write
serialize_variable_table_with_generic_command c = do
  write_reference_type_id c.ref_type
  write_method_id c.method

unfoldable pub deserialize_variable_table_with_generic_command :
    Read VariableTableWithGenericCommand
deserialize_variable_table_with_generic_command = do
  ref_type ← read_reference_type_id
  method ← read_method_id
  return (record { ref_type = ref_type; method = method })

abbrev pub IsVariableTableWithGenericCommand :
    Platform → IdSizesSpec → VariableTableWithGenericCommand → Type 0
IsVariableTableWithGenericCommand p s c =
    IsId s.reference_type_id_struct c.ref_type × IsId s.method_id_struct c.method

pub RoundTrip-variable_table_with_generic_command :
    {p : Platform} {s : IdSizesSpec} {c : VariableTableWithGenericCommand}
    → IsVariableTableWithGenericCommand p s c
    → RoundTrip p s
        (serialize_variable_table_with_generic_command c)
        deserialize_variable_table_with_generic_command
        c
unfolding serialize_variable_table_with_generic_command
    deserialize_variable_table_with_generic_command
RoundTrip-variable_table_with_generic_command h =
    RoundTrip-seq _ (RoundTrip-reference_type_id h.0) (RoundTrip-last _ (RoundTrip-method_id h.1))
