-- ===== src/Commands/ReferenceType/ClassFile.antt =====
-- src/jdwpy/commands/reference_type.py: Instances, ClassFileVersion, ConstantPool.
use jdwpy.Prelude.{All, List, length}
use jdwpy.Prelude.Int.{pos, ℤ}
use jdwpy.Spec.{IdSizesSpec, TaggedObjectId}
use jdwpy.Io.{Platform, Read, Write, for_each, read_list, return, ◌>>=◌, ◌>>◌}
use jdwpy.Io.Ranges.{IsId, IsInt}
use jdwpy.Io.Reader.{read_byte, read_int, read_reference_type_id, read_tagged_object}
use jdwpy.Io.Writer.{write_byte, write_int, write_reference_type_id, write_tagged_object}
use jdwpy.Io.Codec.{RoundTrip, RoundTrip-All, RoundTrip-last, RoundTrip-seq}
use jdwpy.Io.Primitives.{RoundTrip-int, RoundTrip-reference_type_id}
use jdwpy.Io.Fields.{IsTaggedObject, RoundTrip-tagged_object}
use jdwpy.Commands.Members.{IsByteInt, RoundTrip-byte_int}

pub record InstancesResponse : Type 0 where
  pub instances : List TaggedObjectId

unfoldable pub serialize_instances_response : InstancesResponse → Write
serialize_instances_response c = do
  write_int (pos (length c.instances))
  for_each c.instances write_tagged_object

unfoldable pub deserialize_instances_response : Read InstancesResponse
deserialize_instances_response = do
  num ← read_int
  instances ← read_list num read_tagged_object
  return (record { instances = instances })

abbrev pub IsInstancesResponse : Platform → IdSizesSpec → InstancesResponse → Type 0
IsInstancesResponse p s c =
    IsInt (pos (length c.instances)) × All (λ x. IsTaggedObject s x) c.instances

pub RoundTrip-instances_response :
    {p : Platform} {s : IdSizesSpec} {c : InstancesResponse}
    → IsInstancesResponse p s c
    → RoundTrip p s (serialize_instances_response c) deserialize_instances_response c
unfolding serialize_instances_response deserialize_instances_response
RoundTrip-instances_response {s = s} {c = c} h = RoundTrip-seq _ (RoundTrip-int h.0) (
    RoundTrip-last _ (
      RoundTrip-All write_tagged_object read_tagged_object (λ x. IsTaggedObject s x) c.instances
        (λ x h. RoundTrip-tagged_object h) h.1))

pub record InstancesCommand : Type 0 where
  pub ref_type : ℤ
  pub max_instances : ℤ

unfoldable pub serialize_instances_command : InstancesCommand → Write
serialize_instances_command c = do write_reference_type_id c.ref_type; write_int c.max_instances

unfoldable pub deserialize_instances_command : Read InstancesCommand
deserialize_instances_command = do
  ref_type ← read_reference_type_id
  max_instances ← read_int
  return (record { ref_type = ref_type; max_instances = max_instances })

abbrev pub IsInstancesCommand : Platform → IdSizesSpec → InstancesCommand → Type 0
IsInstancesCommand p s c = IsId s.reference_type_id_struct c.ref_type × IsInt c.max_instances

pub RoundTrip-instances_command :
    {p : Platform} {s : IdSizesSpec} {c : InstancesCommand}
    → IsInstancesCommand p s c
    → RoundTrip p s (serialize_instances_command c) deserialize_instances_command c
unfolding serialize_instances_command deserialize_instances_command
RoundTrip-instances_command h =
    RoundTrip-seq _ (RoundTrip-reference_type_id h.0) (RoundTrip-last _ (RoundTrip-int h.1))

pub record ClassFileVersionResponse : Type 0 where
  pub major_version : ℤ
  pub minor_version : ℤ

unfoldable pub serialize_class_file_version_response : ClassFileVersionResponse → Write
serialize_class_file_version_response c = do write_int c.major_version; write_int c.minor_version

unfoldable pub deserialize_class_file_version_response : Read ClassFileVersionResponse
deserialize_class_file_version_response = do
  major_version ← read_int
  minor_version ← read_int
  return (record { major_version = major_version; minor_version = minor_version })

abbrev pub IsClassFileVersionResponse : Platform → IdSizesSpec → ClassFileVersionResponse → Type 0
IsClassFileVersionResponse p s c = IsInt c.major_version × IsInt c.minor_version

pub RoundTrip-class_file_version_response :
    {p : Platform} {s : IdSizesSpec} {c : ClassFileVersionResponse}
    → IsClassFileVersionResponse p s c
    → RoundTrip p s
        (serialize_class_file_version_response c)
        deserialize_class_file_version_response
        c
unfolding serialize_class_file_version_response deserialize_class_file_version_response
RoundTrip-class_file_version_response h =
    RoundTrip-seq _ (RoundTrip-int h.0) (RoundTrip-last _ (RoundTrip-int h.1))

pub record ClassFileVersionCommand : Type 0 where
  pub ref_type : ℤ

unfoldable pub serialize_class_file_version_command : ClassFileVersionCommand → Write
serialize_class_file_version_command c = write_reference_type_id c.ref_type

unfoldable pub deserialize_class_file_version_command : Read ClassFileVersionCommand
deserialize_class_file_version_command = do
  ref_type ← read_reference_type_id
  return (record { ref_type = ref_type })

abbrev pub IsClassFileVersionCommand : Platform → IdSizesSpec → ClassFileVersionCommand → Type 0
IsClassFileVersionCommand p s c = IsId s.reference_type_id_struct c.ref_type

pub RoundTrip-class_file_version_command :
    {p : Platform} {s : IdSizesSpec} {c : ClassFileVersionCommand}
    → IsClassFileVersionCommand p s c
    → RoundTrip p s
        (serialize_class_file_version_command c)
        deserialize_class_file_version_command
        c
unfolding serialize_class_file_version_command deserialize_class_file_version_command
RoundTrip-class_file_version_command h = RoundTrip-last _ (RoundTrip-reference_type_id h)

pub record ConstantPoolResponse : Type 0 where
  pub bytes : List ℤ

unfoldable pub serialize_constant_pool_response : ConstantPoolResponse → Write
serialize_constant_pool_response c = do
  write_int (pos (length c.bytes))
  for_each c.bytes write_byte

unfoldable pub deserialize_constant_pool_response : Read ConstantPoolResponse
deserialize_constant_pool_response = do
  num ← read_int
  b ← read_list num read_byte
  return (record { bytes = b })

abbrev pub IsConstantPoolResponse : Platform → IdSizesSpec → ConstantPoolResponse → Type 0
IsConstantPoolResponse p s c = IsInt (pos (length c.bytes)) × All (λ x. IsByteInt x) c.bytes

pub RoundTrip-constant_pool_response :
    {p : Platform} {s : IdSizesSpec} {c : ConstantPoolResponse}
    → IsConstantPoolResponse p s c
    → RoundTrip p s (serialize_constant_pool_response c) deserialize_constant_pool_response c
unfolding serialize_constant_pool_response deserialize_constant_pool_response
RoundTrip-constant_pool_response {c = c} h = RoundTrip-seq _ (RoundTrip-int h.0) (
    RoundTrip-last _ (
      RoundTrip-All write_byte read_byte (λ x. IsByteInt x) c.bytes (λ x h. RoundTrip-byte_int h)
        h.1))

pub record ConstantPoolCommand : Type 0 where
  pub ref_type : ℤ

unfoldable pub serialize_constant_pool_command : ConstantPoolCommand → Write
serialize_constant_pool_command c = write_reference_type_id c.ref_type

unfoldable pub deserialize_constant_pool_command : Read ConstantPoolCommand
deserialize_constant_pool_command = do
  ref_type ← read_reference_type_id
  return (record { ref_type = ref_type })

abbrev pub IsConstantPoolCommand : Platform → IdSizesSpec → ConstantPoolCommand → Type 0
IsConstantPoolCommand p s c = IsId s.reference_type_id_struct c.ref_type

pub RoundTrip-constant_pool_command :
    {p : Platform} {s : IdSizesSpec} {c : ConstantPoolCommand}
    → IsConstantPoolCommand p s c
    → RoundTrip p s (serialize_constant_pool_command c) deserialize_constant_pool_command c
unfolding serialize_constant_pool_command deserialize_constant_pool_command
RoundTrip-constant_pool_command h = RoundTrip-last _ (RoundTrip-reference_type_id h)
