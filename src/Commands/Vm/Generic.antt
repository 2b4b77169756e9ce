-- ===== src/Commands/Vm/Generic.antt =====
-- src/jdwpy/commands/vm.py: AllClassesWithGeneric, InstanceCounts, SetDefaultStratum.
use jdwpy.Prelude.{All, List, length, ℕ}
use jdwpy.Prelude.Int.{pos, ℤ}
use jdwpy.Utf8.{Str}
use jdwpy.Constants.TypeTag.{JdwpTypeTag}
use jdwpy.Spec.{IdSizesSpec}
use jdwpy.Io.{Platform, Read, Write, for_each, read_list, return, skip, ◌>>=◌, ◌>>◌}
use jdwpy.Io.Ranges.{IsId, IsInt, IsLong, IsString}
use jdwpy.Io.Reader.{read_int, read_long, read_reference_type_id, read_string, read_type_tag}
use jdwpy.Io.Writer.{write_int, write_long, write_reference_type_id, write_string, write_type_tag}
use jdwpy.Io.Codec.{RoundTrip, RoundTrip-All, RoundTrip-last, RoundTrip-return, RoundTrip-seq}
use jdwpy.Io.Primitives.{
  RoundTrip-int, RoundTrip-long, RoundTrip-reference_type_id, RoundTrip-string,
}
use jdwpy.Io.Fields.{RoundTrip-type_tag}
use jdwpy.Commands.Members.{IsFlag, RoundTrip-class_status, read_class_status, write_flag}

pub record AllClassesWithGenericEntry : Type 0 where
  pub ref_type_tag : JdwpTypeTag
  pub type_id : ℤ
  pub signature : Str
  pub generic_signature : Str
  pub status : ℕ

unfoldable pub serialize_all_classes_with_generic_entry : AllClassesWithGenericEntry → Write
serialize_all_classes_with_generic_entry c = do
  write_type_tag c.ref_type_tag
  write_reference_type_id c.type_id
  write_string c.signature
  write_string c.generic_signature
  write_flag c.status

unfoldable pub deserialize_all_classes_with_generic_entry : Read AllClassesWithGenericEntry
deserialize_all_classes_with_generic_entry = do
  ref_type_tag ← read_type_tag
  type_id ← read_reference_type_id
  signature ← read_string
  generic_signature ← read_string
  status ← read_class_status
  return (record {
    ref_type_tag = ref_type_tag;
    type_id = type_id;
    signature = signature;
    generic_signature = generic_signature;
    status = status;
  })

abbrev pub IsAllClassesWithGenericEntry :
    Platform → IdSizesSpec → AllClassesWithGenericEntry → Type 0
IsAllClassesWithGenericEntry p s c =
    IsId s.reference_type_id_struct c.type_id
    × IsString c.signature
    × IsString c.generic_signature
    × IsFlag c.status

pub RoundTrip-all_classes_with_generic_entry :
    {p : Platform} {s : IdSizesSpec} {c : AllClassesWithGenericEntry}
    → IsAllClassesWithGenericEntry p s c
    → RoundTrip p s
        (serialize_all_classes_with_generic_entry c)
        deserialize_all_classes_with_generic_entry
        c
unfolding serialize_all_classes_with_generic_entry deserialize_all_classes_with_generic_entry
RoundTrip-all_classes_with_generic_entry h = RoundTrip-seq _ RoundTrip-type_tag (
    RoundTrip-seq _ (RoundTrip-reference_type_id h.0) (
      RoundTrip-seq _ (RoundTrip-string h.1)
        (RoundTrip-seq _ (RoundTrip-string h.2) (RoundTrip-last _ (RoundTrip-class_status h.3)))))

pub record AllClassesWithGenericResponse : Type 0 where
  pub classes : List AllClassesWithGenericEntry

unfoldable pub serialize_all_classes_with_generic_response : AllClassesWithGenericResponse → Write
serialize_all_classes_with_generic_response c = do
  write_int (pos (length c.classes))
  for_each c.classes serialize_all_classes_with_generic_entry

unfoldable pub deserialize_all_classes_with_generic_response : Read AllClassesWithGenericResponse
deserialize_all_classes_with_generic_response = do
  num ← read_int
  entries ← read_list num deserialize_all_classes_with_generic_entry
  return (record { classes = entries })

abbrev pub IsAllClassesWithGenericResponse :
    Platform → IdSizesSpec → AllClassesWithGenericResponse → Type 0
IsAllClassesWithGenericResponse p s c =
    IsInt (pos (length c.classes)) × All (IsAllClassesWithGenericEntry p s) c.classes

pub RoundTrip-all_classes_with_generic_response :
    {p : Platform} {s : IdSizesSpec} {c : AllClassesWithGenericResponse}
    → IsAllClassesWithGenericResponse p s c
    → RoundTrip p s
        (serialize_all_classes_with_generic_response c)
        deserialize_all_classes_with_generic_response
        c
unfolding serialize_all_classes_with_generic_response deserialize_all_classes_with_generic_response
RoundTrip-all_classes_with_generic_response {p = p} {s = s} {c = c} h =
    RoundTrip-seq _ (RoundTrip-int h.0) (
      RoundTrip-last _ (
        RoundTrip-All serialize_all_classes_with_generic_entry
          deserialize_all_classes_with_generic_entry (IsAllClassesWithGenericEntry p s) c.classes
          (λ x h. RoundTrip-all_classes_with_generic_entry h) h.1))

pub data AllClassesWithGenericCommand : Type 0 where
  all_classes_with_generic_command : AllClassesWithGenericCommand

unfoldable pub serialize_all_classes_with_generic_command : AllClassesWithGenericCommand → Write
serialize_all_classes_with_generic_command _ = skip

unfoldable pub deserialize_all_classes_with_generic_command : Read AllClassesWithGenericCommand
deserialize_all_classes_with_generic_command = return all_classes_with_generic_command

pub RoundTrip-all_classes_with_generic_command :
    {p : Platform} {s : IdSizesSpec} (c : AllClassesWithGenericCommand)
    → RoundTrip p s
        (serialize_all_classes_with_generic_command c)
        deserialize_all_classes_with_generic_command
        c
unfolding serialize_all_classes_with_generic_command deserialize_all_classes_with_generic_command
RoundTrip-all_classes_with_generic_command all_classes_with_generic_command =
    RoundTrip-return all_classes_with_generic_command

pub record InstanceCountsResponse : Type 0 where
  pub counts : List ℤ

unfoldable pub serialize_instance_counts_response : InstanceCountsResponse → Write
serialize_instance_counts_response c = do
  write_int (pos (length c.counts))
  for_each c.counts write_long

unfoldable pub deserialize_instance_counts_response : Read InstanceCountsResponse
deserialize_instance_counts_response = do
  num ← read_int
  counts ← read_list num read_long
  return (record { counts = counts })

abbrev pub IsInstanceCountsResponse : Platform → IdSizesSpec → InstanceCountsResponse → Type 0
IsInstanceCountsResponse p s c = IsInt (pos (length c.counts)) × All (λ x. IsLong x) c.counts

pub RoundTrip-instance_counts_response :
    {p : Platform} {s : IdSizesSpec} {c : InstanceCountsResponse}
    → IsInstanceCountsResponse p s c
    → RoundTrip p s (serialize_instance_counts_response c) deserialize_instance_counts_response c
unfolding serialize_instance_counts_response deserialize_instance_counts_response
RoundTrip-instance_counts_response {c = c} h = RoundTrip-seq _ (RoundTrip-int h.0) (
    RoundTrip-last _
      (RoundTrip-All write_long read_long (λ x. IsLong x) c.counts (λ x h. RoundTrip-long h) h.1))

pub record InstanceCountsCommand : Type 0 where
  pub ref_types : List ℤ

unfoldable pub serialize_instance_counts_command : InstanceCountsCommand → Write
serialize_instance_counts_command c = do
  write_int (pos (length c.ref_types))
  for_each c.ref_types write_reference_type_id

unfoldable pub deserialize_instance_counts_command : Read InstanceCountsCommand
deserialize_instance_counts_command = do
  num ← read_int
  ref_types ← read_list num read_reference_type_id
  return (record { ref_types = ref_types })

abbrev pub IsInstanceCountsCommand : Platform → IdSizesSpec → InstanceCountsCommand → Type 0
IsInstanceCountsCommand p s c =
    IsInt (pos (length c.ref_types)) × All (λ x. IsId s.reference_type_id_struct x) c.ref_types

pub RoundTrip-instance_counts_command :
    {p : Platform} {s : IdSizesSpec} {c : InstanceCountsCommand}
    → IsInstanceCountsCommand p s c
    → RoundTrip p s (serialize_instance_counts_command c) deserialize_instance_counts_command c
unfolding serialize_instance_counts_command deserialize_instance_counts_command
RoundTrip-instance_counts_command {s = s} {c = c} h = RoundTrip-seq _ (RoundTrip-int h.0) (
    RoundTrip-last _ (
      RoundTrip-All write_reference_type_id read_reference_type_id
        (λ x. IsId s.reference_type_id_struct x) c.ref_types (λ x h. RoundTrip-reference_type_id h)
        h.1))

pub data SetDefaultStratumResponse : Type 0 where
  set_default_stratum_response : SetDefaultStratumResponse

unfoldable pub serialize_set_default_stratum_response : SetDefaultStratumResponse → Write
serialize_set_default_stratum_response _ = skip

unfoldable pub deserialize_set_default_stratum_response : Read SetDefaultStratumResponse
deserialize_set_default_stratum_response = return set_default_stratum_response

pub RoundTrip-set_default_stratum_response :
    {p : Platform} {s : IdSizesSpec} (c : SetDefaultStratumResponse)
    → RoundTrip p s
        (serialize_set_default_stratum_response c)
        deserialize_set_default_stratum_response
        c
unfolding serialize_set_default_stratum_response deserialize_set_default_stratum_response
RoundTrip-set_default_stratum_response set_default_stratum_response =
    RoundTrip-return set_default_stratum_response

pub record SetDefaultStratumCommand : Type 0 where
  pub stratum_id : Str

unfoldable pub serialize_set_default_stratum_command : SetDefaultStratumCommand → Write
serialize_set_default_stratum_command c = write_string c.stratum_id

unfoldable pub deserialize_set_default_stratum_command : Read SetDefaultStratumCommand
deserialize_set_default_stratum_command = do
  stratum_id ← read_string
  return (record { stratum_id = stratum_id })

abbrev pub IsSetDefaultStratumCommand : Platform → IdSizesSpec → SetDefaultStratumCommand → Type 0
IsSetDefaultStratumCommand p s c = IsString c.stratum_id

pub RoundTrip-set_default_stratum_command :
    {p : Platform} {s : IdSizesSpec} {c : SetDefaultStratumCommand}
    → IsSetDefaultStratumCommand p s c
    → RoundTrip p s
        (serialize_set_default_stratum_command c)
        deserialize_set_default_stratum_command
        c
unfolding serialize_set_default_stratum_command deserialize_set_default_stratum_command
RoundTrip-set_default_stratum_command h = RoundTrip-last _ (RoundTrip-string h)
