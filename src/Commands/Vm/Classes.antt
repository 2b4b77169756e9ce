-- ===== src/Commands/Vm/Classes.antt =====
-- src/jdwpy/commands/vm.py: ClassesBySignature, AllClasses.
use jdwpy.Prelude.{All, List, length, ℕ}
use jdwpy.Prelude.Int.{pos, ℤ}
use jdwpy.Utf8.{Str}
use jdwpy.Constants.TypeTag.{JdwpTypeTag}
use jdwpy.Spec.{IdSizesSpec}
use jdwpy.Io.{Platform, Read, Write, for_each, read_list, return, skip, ◌>>=◌, ◌>>◌}
use jdwpy.Io.Ranges.{IsId, IsInt, IsString}
use jdwpy.Io.Reader.{read_int, read_reference_type_id, read_string, read_type_tag}
use jdwpy.Io.Writer.{write_int, write_reference_type_id, write_string, write_type_tag}
use jdwpy.Io.Codec.{RoundTrip, RoundTrip-All, RoundTrip-last, RoundTrip-return, RoundTrip-seq}
use jdwpy.Io.Primitives.{RoundTrip-int, RoundTrip-reference_type_id, RoundTrip-string}
use jdwpy.Io.Fields.{RoundTrip-type_tag}
use jdwpy.Commands.Members.{IsFlag, RoundTrip-class_status, read_class_status, write_flag}

pub record ClassesBySignatureEntry : Type 0 where
  pub ref_type_tag : JdwpTypeTag
  pub type_id : ℤ
  pub status : ℕ

unfoldable pub serialize_classes_by_signature_entry : ClassesBySignatureEntry → Write
serialize_classes_by_signature_entry c = do
  write_type_tag c.ref_type_tag
  write_reference_type_id c.type_id
  write_flag c.status

unfoldable pub deserialize_classes_by_signature_entry : Read ClassesBySignatureEntry
deserialize_classes_by_signature_entry = do
  ref_type_tag ← read_type_tag
  type_id ← read_reference_type_id
  status ← read_class_status
  return (record { ref_type_tag = ref_type_tag; type_id = type_id; status = status })

abbrev pub IsClassesBySignatureEntry : Platform → IdSizesSpec → ClassesBySignatureEntry → Type 0
IsClassesBySignatureEntry p s c = IsId s.reference_type_id_struct c.type_id × IsFlag c.status

pub RoundTrip-classes_by_signature_entry :
    {p : Platform} {s : IdSizesSpec} {c : ClassesBySignatureEntry}
    → IsClassesBySignatureEntry p s c
    → RoundTrip p s
        (serialize_classes_by_signature_entry c)
        deserialize_classes_by_signature_entry
        c
unfolding serialize_classes_by_signature_entry deserialize_classes_by_signature_entry
RoundTrip-classes_by_signature_entry h = RoundTrip-seq _ RoundTrip-type_tag (
    RoundTrip-seq _ (RoundTrip-reference_type_id h.0)
      (RoundTrip-last _ (RoundTrip-class_status h.1)))

pub record ClassesBySignatureResponse : Type 0 where
  pub classes : List ClassesBySignatureEntry

unfoldable pub serialize_classes_by_signature_response : ClassesBySignatureResponse → Write
serialize_classes_by_signature_response c = do
  write_int (pos (length c.classes))
  for_each c.classes serialize_classes_by_signature_entry

unfoldable pub deserialize_classes_by_signature_response : Read ClassesBySignatureResponse
deserialize_classes_by_signature_response = do
  num ← read_int
  entries ← read_list num deserialize_classes_by_signature_entry
  return (record { classes = entries })

abbrev pub IsClassesBySignatureResponse :
    Platform → IdSizesSpec → ClassesBySignatureResponse → Type 0
IsClassesBySignatureResponse p s c =
    IsInt (pos (length c.classes)) × All (IsClassesBySignatureEntry p s) c.classes

pub RoundTrip-classes_by_signature_response :
    {p : Platform} {s : IdSizesSpec} {c : ClassesBySignatureResponse}
    → IsClassesBySignatureResponse p s c
    → RoundTrip p s
        (serialize_classes_by_signature_response c)
        deserialize_classes_by_signature_response
        c
unfolding serialize_classes_by_signature_response deserialize_classes_by_signature_response
RoundTrip-classes_by_signature_response {p = p} {s = s} {c = c} h =
    RoundTrip-seq _ (RoundTrip-int h.0) (
      RoundTrip-last _ (
        RoundTrip-All serialize_classes_by_signature_entry deserialize_classes_by_signature_entry
          (IsClassesBySignatureEntry p s) c.classes (λ x h. RoundTrip-classes_by_signature_entry h)
          h.1))

pub record ClassesBySignatureCommand : Type 0 where
  pub signature : Str

unfoldable pub serialize_classes_by_signature_command : ClassesBySignatureCommand → Write
serialize_classes_by_signature_command c = write_string c.signature

unfoldable pub deserialize_classes_by_signature_command : Read ClassesBySignatureCommand
deserialize_classes_by_signature_command = do
  signature ← read_string
  return (record { signature = signature })

abbrev pub IsClassesBySignatureCommand : Platform → IdSizesSpec → ClassesBySignatureCommand → Type 0
IsClassesBySignatureCommand p s c = IsString c.signature

pub RoundTrip-classes_by_signature_command :
    {p : Platform} {s : IdSizesSpec} {c : ClassesBySignatureCommand}
    → IsClassesBySignatureCommand p s c
    → RoundTrip p s
        (serialize_classes_by_signature_command c)
        deserialize_classes_by_signature_command
        c
unfolding serialize_classes_by_signature_command deserialize_classes_by_signature_command
RoundTrip-classes_by_signature_command h = RoundTrip-last _ (RoundTrip-string h)

pub record AllClassesEntry : Type 0 where
  pub ref_type_tag : JdwpTypeTag
  pub type_id : ℤ
  pub signature : Str
  pub status : ℕ

unfoldable pub serialize_all_classes_entry : AllClassesEntry → Write
serialize_all_classes_entry c = do
  write_type_tag c.ref_type_tag
  write_reference_type_id c.type_id
  write_string c.signature
  write_flag c.status

unfoldable pub deserialize_all_classes_entry : Read AllClassesEntry
deserialize_all_classes_entry = do
  ref_type_tag ← read_type_tag
  type_id ← read_reference_type_id
  signature ← read_string
  status ← read_class_status
  return (record {
    ref_type_tag = ref_type_tag;
    type_id = type_id;
    signature = signature;
    status = status;
  })

abbrev pub IsAllClassesEntry : Platform → IdSizesSpec → AllClassesEntry → Type 0
IsAllClassesEntry p s c =
    IsId s.reference_type_id_struct c.type_id × IsString c.signature × IsFlag c.status

pub RoundTrip-all_classes_entry :
    {p : Platform} {s : IdSizesSpec} {c : AllClassesEntry}
    → IsAllClassesEntry p s c
    → RoundTrip p s (serialize_all_classes_entry c) deserialize_all_classes_entry c
unfolding serialize_all_classes_entry deserialize_all_classes_entry
RoundTrip-all_classes_entry h = RoundTrip-seq _ RoundTrip-type_tag (
    RoundTrip-seq _ (RoundTrip-reference_type_id h.0)
      (RoundTrip-seq _ (RoundTrip-string h.1) (RoundTrip-last _ (RoundTrip-class_status h.2))))

pub record AllClassesResponse : Type 0 where
  pub classes : List AllClassesEntry

unfoldable pub serialize_all_classes_response : AllClassesResponse → Write
serialize_all_classes_response c = do
  write_int (pos (length c.classes))
  for_each c.classes serialize_all_classes_entry

unfoldable pub deserialize_all_classes_response : Read AllClassesResponse
deserialize_all_classes_response = do
  num ← read_int
  entries ← read_list num deserialize_all_classes_entry
  return (record { classes = entries })

abbrev pub IsAllClassesResponse : Platform → IdSizesSpec → AllClassesResponse → Type 0
IsAllClassesResponse p s c = IsInt (pos (length c.classes)) × All (IsAllClassesEntry p s) c.classes

pub RoundTrip-all_classes_response :
    {p : Platform} {s : IdSizesSpec} {c : AllClassesResponse}
    → IsAllClassesResponse p s c
    → RoundTrip p s (serialize_all_classes_response c) deserialize_all_classes_response c
unfolding serialize_all_classes_response deserialize_all_classes_response
RoundTrip-all_classes_response {p = p} {s = s} {c = c} h = RoundTrip-seq _ (RoundTrip-int h.0) (
    RoundTrip-last _ (
      RoundTrip-All serialize_all_classes_entry deserialize_all_classes_entry
        (IsAllClassesEntry p s) c.classes (λ x h. RoundTrip-all_classes_entry h) h.1))

pub data AllClassesCommand : Type 0 where
  all_classes_command : AllClassesCommand

unfoldable pub serialize_all_classes_command : AllClassesCommand → Write
serialize_all_classes_command _ = skip

unfoldable pub deserialize_all_classes_command : Read AllClassesCommand
deserialize_all_classes_command = return all_classes_command

pub RoundTrip-all_classes_command :
    {p : Platform} {s : IdSizesSpec} (c : AllClassesCommand)
    → RoundTrip p s (serialize_all_classes_command c) deserialize_all_classes_command c
unfolding serialize_all_classes_command deserialize_all_classes_command
RoundTrip-all_classes_command all_classes_command = RoundTrip-return all_classes_command
