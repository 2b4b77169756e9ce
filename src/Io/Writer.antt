-- ===== src/Io/Writer.antt =====
-- The methods of JdwpWriter of src/jdwpy/io.py, but those of values.
use jdwpy.Prelude.{Bool, List, [], if◌then◌else◌, length, ℕ, ◌%◌, ◌++◌, ◌-◌, ◌∷◌}
use jdwpy.Prelude.Int.{negsuc, pos, ℤ}
use jdwpy.Struct.{Result, err, ok, pack_signed, pack_unsigned}
use jdwpy.Utf8.{Str, encode}
use jdwpy.Constants.Tag.{JdwpTag, tag_value}
use jdwpy.Constants.TypeTag.{JdwpTypeTag, type_tag_value}
use jdwpy.Spec.{IdSizesSpec, IdStruct, Location, TaggedObjectId, size}
use jdwpy.Io.{Write, ◌>>◌}

-- `self._buffer.extend(bytes)`
unfoldable pub extend : List ℕ → Write
extend bytes p wr = ok (record wr { buffer = wr.buffer ++ bytes })

-- `self._buffer.extend` of what was packed or encoded, or the exception of that.
unfoldable pub extend_result : Result (List ℕ) → Write
unfolding extend
extend_result (ok bytes) p wr = extend bytes p wr
extend_result (err e) p wr = err e

-- `val & 0xFF`
unfoldable pub low_byte : ℤ → ℕ
low_byte (pos n) = n % 256
low_byte (negsuc n) = 255 - n % 256

unfoldable pub write_byte : ℤ → Write
unfolding extend low_byte
write_byte v = extend (low_byte v ∷ [])

unfoldable pub write_boolean : Bool → Write
unfolding extend
write_boolean v = extend ((if v then 1 else 0) ∷ [])

unfoldable pub write_signed : ℕ → ℤ → Write
unfolding extend_result
write_signed w v = extend_result (pack_signed w v)

unfoldable pub write_unsigned : ℕ → ℤ → Write
unfolding extend_result
write_unsigned w v = extend_result (pack_unsigned w v)

unfoldable pub write_int : ℤ → Write
unfolding write_signed
write_int v = write_signed 4 v

unfoldable pub write_long : ℤ → Write
unfolding write_signed
write_long v = write_signed 8 v

unfoldable pub write_encoded : Result (List ℕ) → Write
write_encoded (ok encoded) = do write_int (pos (length encoded)); extend encoded
write_encoded (err e) = extend_result (err e)

unfoldable pub write_string : Str → Write
unfolding write_encoded
write_string s = write_encoded (encode s)

-- `self._buffer.extend(self.spec.…_struct.pack(val))`
unfoldable pub write_id : (IdSizesSpec → IdStruct) → ℤ → Write
unfolding write_unsigned
write_id struct_of v p wr = write_unsigned (size (struct_of wr.spec)) v p wr

unfoldable pub write_object_id : ℤ → Write
unfolding write_id
write_object_id = write_id (λ s. s.object_id_struct)

unfoldable pub write_reference_type_id : ℤ → Write
unfolding write_id
write_reference_type_id = write_id (λ s. s.reference_type_id_struct)

unfoldable pub write_field_id : ℤ → Write
unfolding write_id
write_field_id = write_id (λ s. s.field_id_struct)

unfoldable pub write_method_id : ℤ → Write
unfolding write_id
write_method_id = write_id (λ s. s.method_id_struct)

unfoldable pub write_frame_id : ℤ → Write
unfolding write_id
write_frame_id = write_id (λ s. s.frame_id_struct)

abbrev pub write_thread_id : ℤ → Write
write_thread_id = write_object_id

abbrev pub write_thread_group_id : ℤ → Write
write_thread_group_id = write_object_id

abbrev pub write_string_id : ℤ → Write
write_string_id = write_object_id

abbrev pub write_class_loader_id : ℤ → Write
write_class_loader_id = write_object_id

abbrev pub write_class_object_id : ℤ → Write
write_class_object_id = write_object_id

abbrev pub write_interface_id : ℤ → Write
write_interface_id = write_object_id

abbrev pub write_class_id : ℤ → Write
write_class_id = write_reference_type_id

abbrev pub write_array_type_id : ℤ → Write
write_array_type_id = write_reference_type_id

abbrev pub write_array_object_id : ℤ → Write
write_array_object_id = write_object_id

-- `write_byte` of a member of an enumeration, which is its value.
abbrev pub write_type_tag : JdwpTypeTag → Write
write_type_tag t = write_byte (pos (type_tag_value t))

abbrev pub write_tag : JdwpTag → Write
write_tag t = write_byte (pos (tag_value t))

unfoldable pub write_location : Location → Write
write_location v = do
  write_type_tag v.type_tag
  write_reference_type_id v.class_id
  write_method_id v.method_id
  write_long v.index

unfoldable pub write_tagged_object : TaggedObjectId → Write
write_tagged_object v = do write_tag v.tag; write_object_id v.object_id
