-- ===== src/Io/Reader.antt =====
-- The methods of JdwpReader of src/jdwpy/io.py, but those of values.
use jdwpy.Prelude.{Bool, List, length, not, ℕ}
use jdwpy.Prelude.Int.{pos, ℤ, ◌+ℤ◌, ◌-ℤ◌, ◌==ℤ◌}
use jdwpy.Struct.{err, from_big_endian, index, ok, slice, to_signed, unpack_from}
use jdwpy.Utf8.{Str, decode}
use jdwpy.Constants.Tag.{JdwpTag, to_tag}
use jdwpy.Constants.TypeTag.{JdwpTypeTag, to_type_tag}
use jdwpy.Spec.{IdSizesSpec, IdStruct, Location, TaggedObjectId, size}
use jdwpy.Io.{JdwpReader, Read, lift, return, ◌>>=◌}

-- `remaining`, which is negative where the offset has passed the end.
unfoldable pub remaining : JdwpReader → ℤ
remaining rd = pos (length rd.buffer) -ℤ rd.offset

-- `self.offset += n`
abbrev pub advance : ℤ → JdwpReader → JdwpReader
advance n rd = record rd { offset = rd.offset +ℤ n }

unfoldable pub read_byte : Read ℤ
read_byte p rd = elim (index rd.buffer rd.offset) [
  | ok b ↦ ok (pos b, advance (pos 1) rd)
  | err e ↦ err e
]

-- `bool(n)`
abbrev pub truth : ℤ → Bool
truth n = not (n ==ℤ pos 0)

unfoldable pub read_boolean : Read Bool
unfolding read_byte
read_boolean = do n ← read_byte; return (truth n)

-- `struct.unpack_from` at the offset, which then moves by the format's size.
unfoldable pub unpack : ℕ → Read (List ℕ)
unpack w p rd = elim (unpack_from w rd.buffer rd.offset) [
  | ok bytes ↦ ok (bytes, advance (pos w) rd)
  | err e ↦ err e
]

unfoldable pub read_signed : ℕ → Read ℤ
unfolding unpack
read_signed w = do bytes ← unpack w; return (to_signed w (from_big_endian bytes))

unfoldable pub read_unsigned : ℕ → Read ℤ
unfolding unpack
read_unsigned w = do bytes ← unpack w; return (pos (from_big_endian bytes))

unfoldable pub read_int : Read ℤ
unfolding read_signed
read_int = read_signed 4

unfoldable pub read_long : Read ℤ
unfolding read_signed
read_long = read_signed 8

-- The text of the `length` bytes at the offset. The slice is cut at the end of the buffer, and the
-- offset moves by `length`, also where that is negative or passes the end.
unfoldable pub read_text : ℤ → Read Str
read_text n p rd = elim (decode (slice rd.buffer rd.offset (rd.offset +ℤ n))) [
  | ok s ↦ ok (s, advance n rd)
  | err e ↦ err e
]

unfoldable pub read_string : Read Str
unfolding read_text
read_string = do n ← read_int; read_text n

-- `_read_id`, with the struct that the spec has for the identifier.
unfoldable pub read_id : (IdSizesSpec → IdStruct) → Read ℤ
unfolding read_unsigned
read_id struct_of p rd = read_unsigned (size (struct_of rd.spec)) p rd

unfoldable pub read_object_id : Read ℤ
unfolding read_id
read_object_id = read_id (λ s. s.object_id_struct)

unfoldable pub read_reference_type_id : Read ℤ
unfolding read_id
read_reference_type_id = read_id (λ s. s.reference_type_id_struct)

unfoldable pub read_field_id : Read ℤ
unfolding read_id
read_field_id = read_id (λ s. s.field_id_struct)

unfoldable pub read_method_id : Read ℤ
unfolding read_id
read_method_id = read_id (λ s. s.method_id_struct)

unfoldable pub read_frame_id : Read ℤ
unfolding read_id
read_frame_id = read_id (λ s. s.frame_id_struct)

-- The readers of the object identifiers with a type of their own call `read_object_id` alone, those
-- of classes and array types `read_reference_type_id`.
abbrev pub read_thread_id : Read ℤ
read_thread_id = read_object_id

abbrev pub read_thread_group_id : Read ℤ
read_thread_group_id = read_object_id

abbrev pub read_string_id : Read ℤ
read_string_id = read_object_id

abbrev pub read_class_loader_id : Read ℤ
read_class_loader_id = read_object_id

abbrev pub read_class_object_id : Read ℤ
read_class_object_id = read_object_id

abbrev pub read_interface_id : Read ℤ
read_interface_id = read_object_id

abbrev pub read_class_id : Read ℤ
read_class_id = read_reference_type_id

abbrev pub read_array_type_id : Read ℤ
read_array_type_id = read_reference_type_id

abbrev pub read_array_object_id : Read ℤ
read_array_object_id = read_object_id

-- `JdwpTypeTag(self.read_byte())`, `JdwpTag(self.read_byte())`
unfoldable pub read_type_tag : Read JdwpTypeTag
read_type_tag = do n ← read_byte; lift (to_type_tag n)

unfoldable pub read_tag : Read JdwpTag
read_tag = do n ← read_byte; lift (to_tag n)

unfoldable pub read_location : Read Location
read_location = do
  type_tag ← read_type_tag
  class_id ← read_reference_type_id
  method_id ← read_method_id
  index ← read_long
  return (record { type_tag = type_tag; class_id = class_id; method_id = method_id; index = index })

unfoldable pub read_tagged_object : Read TaggedObjectId
read_tagged_object = do
  tag ← read_tag
  object_id ← read_object_id
  return (record { tag = tag; object_id = object_id })
