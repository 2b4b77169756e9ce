-- ===== src/Io/Values.antt =====
-- The values of src/jdwpy/io.py: `read_value`, `read_untagged_value` and their writers.
use jdwpy.Prelude.{none, some, ℕ}
use jdwpy.Prelude.Int.{pos, pos_part}
use jdwpy.Struct.{err, overflow_error}
use jdwpy.Constants.Tag.{
  JdwpTag, array, boolean, byte, char, class_loader, class_object, double, float, int, long, object,
  short, string, thread, thread_group, void,
}
use jdwpy.Spec.{JdwpValue, Payload}
use jdwpy.Io.{Read, Write, return, skip, ◌>>=◌, ◌>>◌}
use jdwpy.Io.Reader.{
  read_boolean, read_int, read_long, read_object_id, read_signed, read_tag, read_unsigned,
}
use jdwpy.Io.Writer.{
  write_boolean, write_int, write_long, write_object_id, write_signed, write_tag, write_unsigned,
}

-- `struct.pack(">f", val)`
unfoldable pub pack_float : ℕ → Write
pack_float v p wr = elim (p.narrow v) [
  | some b ↦ write_unsigned 4 (pos b) p wr
  | none ↦ err overflow_error
]

-- `struct.unpack_from(">f", …)`
unfoldable pub unpack_float : Read ℕ
unpack_float p rd = (do n ← read_unsigned 4; return (p.widen (pos_part n))) p rd

unfoldable pub unpack_double : Read ℕ
unpack_double = do n ← read_unsigned 8; return (pos_part n)

unfoldable pub read_untagged_value : (tag : JdwpTag) → Read (Payload tag)
read_untagged_value byte = read_signed 1
read_untagged_value char = read_unsigned 2
read_untagged_value float = unpack_float
read_untagged_value double = unpack_double
read_untagged_value int = read_int
read_untagged_value long = read_long
read_untagged_value short = read_signed 2
read_untagged_value void = return tt
read_untagged_value boolean = read_boolean
read_untagged_value array = read_object_id
read_untagged_value object = read_object_id
read_untagged_value string = read_object_id
read_untagged_value thread = read_object_id
read_untagged_value thread_group = read_object_id
read_untagged_value class_loader = read_object_id
read_untagged_value class_object = read_object_id

unfoldable pub write_untagged_value : (tag : JdwpTag) → Payload tag → Write
write_untagged_value byte v = write_signed 1 v
write_untagged_value char v = write_unsigned 2 v
write_untagged_value float v = pack_float v
write_untagged_value double v = write_unsigned 8 (pos v)
write_untagged_value int v = write_int v
write_untagged_value long v = write_long v
write_untagged_value short v = write_signed 2 v
write_untagged_value void v = skip
write_untagged_value boolean v = write_boolean v
write_untagged_value array v = write_object_id v
write_untagged_value object v = write_object_id v
write_untagged_value string v = write_object_id v
write_untagged_value thread v = write_object_id v
write_untagged_value thread_group v = write_object_id v
write_untagged_value class_loader v = write_object_id v
write_untagged_value class_object v = write_object_id v

-- An unknown tag byte is a ValueError, with a message of its own in the source.
unfoldable pub read_value : Read JdwpValue
read_value = do
  tag ← read_tag
  value ← read_untagged_value tag
  return (record { tag = tag; value = value })

unfoldable pub write_value : JdwpValue → Write
write_value v = do write_tag v.tag; write_untagged_value v.tag v.value
