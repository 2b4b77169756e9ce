-- ===== src/Commands/Vm/Info.antt =====
-- src/jdwpy/commands/vm.py: Version, IDSizes, ClassPaths.
use jdwpy.Prelude.{All, List, length}
use jdwpy.Prelude.Int.{pos, ℤ}
use jdwpy.Utf8.{Str}
use jdwpy.Spec.{IdSizesSpec}
use jdwpy.Io.{Platform, Read, Write, for_each, read_list, return, skip, ◌>>=◌, ◌>>◌}
use jdwpy.Io.Ranges.{IsInt, IsString}
use jdwpy.Io.Reader.{read_int, read_string}
use jdwpy.Io.Writer.{write_int, write_string}
use jdwpy.Io.Codec.{RoundTrip, RoundTrip-All, RoundTrip-last, RoundTrip-return, RoundTrip-seq}
use jdwpy.Io.Primitives.{RoundTrip-int, RoundTrip-string}

pub record VersionResponse : Type 0 where
  pub description : Str
  pub jdwp_major : ℤ
  pub jdwp_minor : ℤ
  pub vm_version : Str
  pub vm_name : Str

unfoldable pub serialize_version_response : VersionResponse → Write
serialize_version_response c = do
  write_string c.description
  write_int c.jdwp_major
  write_int c.jdwp_minor
  write_string c.vm_version
  write_string c.vm_name

unfoldable pub deserialize_version_response : Read VersionResponse
deserialize_version_response = do
  description ← read_string
  jdwp_major ← read_int
  jdwp_minor ← read_int
  vm_version ← read_string
  vm_name ← read_string
  return (record {
    description = description;
    jdwp_major = jdwp_major;
    jdwp_minor = jdwp_minor;
    vm_version = vm_version;
    vm_name = vm_name;
  })

abbrev pub IsVersionResponse : Platform → IdSizesSpec → VersionResponse → Type 0
IsVersionResponse p s c =
    IsString c.description
    × IsInt c.jdwp_major
    × IsInt c.jdwp_minor
    × IsString c.vm_version
    × IsString c.vm_name

pub RoundTrip-version_response :
    {p : Platform} {s : IdSizesSpec} {c : VersionResponse}
    → IsVersionResponse p s c
    → RoundTrip p s (serialize_version_response c) deserialize_version_response c
unfolding serialize_version_response deserialize_version_response
RoundTrip-version_response h = RoundTrip-seq _ (RoundTrip-string h.0) (
    RoundTrip-seq _ (RoundTrip-int h.1) (
      RoundTrip-seq _ (RoundTrip-int h.2)
        (RoundTrip-seq _ (RoundTrip-string h.3) (RoundTrip-last _ (RoundTrip-string h.4)))))

pub data VersionCommand : Type 0 where
  version_command : VersionCommand

unfoldable pub serialize_version_command : VersionCommand → Write
serialize_version_command _ = skip

unfoldable pub deserialize_version_command : Read VersionCommand
deserialize_version_command = return version_command

pub RoundTrip-version_command :
    {p : Platform} {s : IdSizesSpec} (c : VersionCommand)
    → RoundTrip p s (serialize_version_command c) deserialize_version_command c
unfolding serialize_version_command deserialize_version_command
RoundTrip-version_command version_command = RoundTrip-return version_command

pub record IdSizesResponse : Type 0 where
  pub field_id_size : ℤ
  pub method_id_size : ℤ
  pub object_id_size : ℤ
  pub reference_type_id_size : ℤ
  pub frame_id_size : ℤ

unfoldable pub serialize_id_sizes_response : IdSizesResponse → Write
serialize_id_sizes_response c = do
  write_int c.field_id_size
  write_int c.method_id_size
  write_int c.object_id_size
  write_int c.reference_type_id_size
  write_int c.frame_id_size

unfoldable pub deserialize_id_sizes_response : Read IdSizesResponse
deserialize_id_sizes_response = do
  field_id_size ← read_int
  method_id_size ← read_int
  object_id_size ← read_int
  reference_type_id_size ← read_int
  frame_id_size ← read_int
  return (record {
    field_id_size = field_id_size;
    method_id_size = method_id_size;
    object_id_size = object_id_size;
    reference_type_id_size = reference_type_id_size;
    frame_id_size = frame_id_size;
  })

abbrev pub IsIdSizesResponse : Platform → IdSizesSpec → IdSizesResponse → Type 0
IsIdSizesResponse p s c =
    IsInt c.field_id_size
    × IsInt c.method_id_size
    × IsInt c.object_id_size
    × IsInt c.reference_type_id_size
    × IsInt c.frame_id_size

pub RoundTrip-id_sizes_response :
    {p : Platform} {s : IdSizesSpec} {c : IdSizesResponse}
    → IsIdSizesResponse p s c
    → RoundTrip p s (serialize_id_sizes_response c) deserialize_id_sizes_response c
unfolding serialize_id_sizes_response deserialize_id_sizes_response
RoundTrip-id_sizes_response h = RoundTrip-seq _ (RoundTrip-int h.0) (
    RoundTrip-seq _ (RoundTrip-int h.1) (
      RoundTrip-seq _ (RoundTrip-int h.2)
        (RoundTrip-seq _ (RoundTrip-int h.3) (RoundTrip-last _ (RoundTrip-int h.4)))))

pub data IdSizesCommand : Type 0 where
  id_sizes_command : IdSizesCommand

unfoldable pub serialize_id_sizes_command : IdSizesCommand → Write
serialize_id_sizes_command _ = skip

unfoldable pub deserialize_id_sizes_command : Read IdSizesCommand
deserialize_id_sizes_command = return id_sizes_command

pub RoundTrip-id_sizes_command :
    {p : Platform} {s : IdSizesSpec} (c : IdSizesCommand)
    → RoundTrip p s (serialize_id_sizes_command c) deserialize_id_sizes_command c
unfolding serialize_id_sizes_command deserialize_id_sizes_command
RoundTrip-id_sizes_command id_sizes_command = RoundTrip-return id_sizes_command

pub record ClassPathsResponse : Type 0 where
  pub base_dir : Str
  pub classpaths : List Str
  pub bootclasspaths : List Str

unfoldable pub serialize_class_paths_response : ClassPathsResponse → Write
serialize_class_paths_response c = do
  write_string c.base_dir
  write_int (pos (length c.classpaths))
  for_each c.classpaths write_string
  write_int (pos (length c.bootclasspaths))
  for_each c.bootclasspaths write_string

unfoldable pub deserialize_class_paths_response : Read ClassPathsResponse
deserialize_class_paths_response = do
  base_dir ← read_string
  num_cp ← read_int
  classpaths ← read_list num_cp read_string
  num_bcp ← read_int
  bootclasspaths ← read_list num_bcp read_string
  return (record { base_dir = base_dir; classpaths = classpaths; bootclasspaths = bootclasspaths })

abbrev pub IsClassPathsResponse : Platform → IdSizesSpec → ClassPathsResponse → Type 0
IsClassPathsResponse p s c =
    IsString c.base_dir
    × IsInt (pos (length c.classpaths))
    × All (λ x. IsString x) c.classpaths
    × IsInt (pos (length c.bootclasspaths))
    × All (λ x. IsString x) c.bootclasspaths

pub RoundTrip-class_paths_response :
    {p : Platform} {s : IdSizesSpec} {c : ClassPathsResponse}
    → IsClassPathsResponse p s c
    → RoundTrip p s (serialize_class_paths_response c) deserialize_class_paths_response c
unfolding serialize_class_paths_response deserialize_class_paths_response
RoundTrip-class_paths_response {c = c} h = RoundTrip-seq _ (RoundTrip-string h.0) (
    RoundTrip-seq _ (RoundTrip-int h.1) (
      RoundTrip-seq _
        (RoundTrip-All write_string read_string (λ x. IsString x) c.classpaths
          (λ x h. RoundTrip-string h) h.2)
        (RoundTrip-seq _ (RoundTrip-int h.3) (
          RoundTrip-last _ (
            RoundTrip-All write_string read_string (λ x. IsString x) c.bootclasspaths
              (λ x h. RoundTrip-string h) h.4)))))

pub data ClassPathsCommand : Type 0 where
  class_paths_command : ClassPathsCommand

unfoldable pub serialize_class_paths_command : ClassPathsCommand → Write
serialize_class_paths_command _ = skip

unfoldable pub deserialize_class_paths_command : Read ClassPathsCommand
deserialize_class_paths_command = return class_paths_command

pub RoundTrip-class_paths_command :
    {p : Platform} {s : IdSizesSpec} (c : ClassPathsCommand)
    → RoundTrip p s (serialize_class_paths_command c) deserialize_class_paths_command c
unfolding serialize_class_paths_command deserialize_class_paths_command
RoundTrip-class_paths_command class_paths_command = RoundTrip-return class_paths_command
