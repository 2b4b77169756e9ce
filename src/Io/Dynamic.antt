-- ===== src/Io/Dynamic.antt =====
-- `write_untagged_value` of src/jdwpy/io.py on any Python value: the source's parameter has the type `Any`, so
-- a value can be written by another tag than its own.
use jdwpy.Prelude.{
  Bool, Option, false, if◌then◌else◌, none, refl, some, true, ℕ, ◌%◌, ◌==◌, ◌^◌, ◌≡◌,
}
use jdwpy.Prelude.Int.{pos, ℤ, ◌==ℤ◌}
use jdwpy.Struct.{err, struct_error}
use jdwpy.Constants.Tag.{
  JdwpTag, array, boolean, byte, char, class_loader, class_object, double, float, int, long, object,
  short, string, thread, thread_group, void,
}
use jdwpy.Spec.{Payload}
use jdwpy.Io.{Write, skip}
use jdwpy.Io.Writer.{
  write_boolean, write_int, write_long, write_object_id, write_signed, write_unsigned,
}
use jdwpy.Io.Values.{pack_float, write_untagged_value}

-- The values that a JdwpValue can hold.
pub data PyValue : Type 0 where
  integer : ℤ → PyValue
  real : ℕ → PyValue
  truth : Bool → PyValue
  nothing : PyValue

-- What a value with the tag holds, as a Python value.
unfoldable pub to_python : (tag : JdwpTag) → Payload tag → PyValue
to_python float v = real v
to_python double v = real v
to_python void v = nothing
to_python boolean v = truth v
to_python byte v = integer v
to_python char v = integer v
to_python int v = integer v
to_python long v = integer v
to_python short v = integer v
to_python array v = integer v
to_python object v = integer v
to_python string v = integer v
to_python thread v = integer v
to_python thread_group v = integer v
to_python class_loader v = integer v
to_python class_object v = integer v

abbrev of_truth : Bool → ℤ
of_truth true = pos 1
of_truth false = pos 0

-- An integer format of `struct.pack`: a bool is an integer, nothing else is.
unfoldable as_integer : PyValue → (ℤ → Write) → Write
as_integer (integer n) k = k n
as_integer (truth b) k = k (of_truth b)
as_integer (real x) k = λ p wr. err struct_error
as_integer nothing k = λ p wr. err struct_error

or_struct_error : Option ℕ → (ℕ → Write) → Write
or_struct_error (some x) k = k x
or_struct_error none k = λ p wr. err struct_error

-- A float format of `struct.pack`.
unfoldable as_real : PyValue → (ℕ → Write) → Write
unfolding or_struct_error
as_real (real x) k = k x
as_real (integer n) k = λ p wr. or_struct_error (p.of_int n) k p wr
as_real (truth b) k = λ p wr. or_struct_error (p.of_int (of_truth b)) k p wr
as_real nothing k = λ p wr. err struct_error

-- `1 if val else 0`: the floats with no bit set but the sign are zero.
unfoldable is_true : PyValue → Bool
is_true (integer n) = if n ==ℤ pos 0 then false else true
is_true (real x) = if x % 2 ^ 63 == 0 then false else true
is_true (truth b) = b
is_true nothing = false

unfoldable pub write_python_value : JdwpTag → PyValue → Write
unfolding as_integer as_real is_true
write_python_value byte v = as_integer v (write_signed 1)
write_python_value char v = as_integer v (write_unsigned 2)
write_python_value float v = as_real v pack_float
write_python_value double v = as_real v (λ x. write_unsigned 8 (pos x))
write_python_value int v = as_integer v write_int
write_python_value long v = as_integer v write_long
write_python_value short v = as_integer v (write_signed 2)
write_python_value void v = skip
write_python_value boolean v = write_boolean (is_true v)
write_python_value array v = as_integer v write_object_id
write_python_value object v = as_integer v write_object_id
write_python_value string v = as_integer v write_object_id
write_python_value thread v = as_integer v write_object_id
write_python_value thread_group v = as_integer v write_object_id
write_python_value class_loader v = as_integer v write_object_id
write_python_value class_object v = as_integer v write_object_id

-- On a value of the tag's own type it is `write_untagged_value` of Io/Values.
pub write_python_value-to_python :
    (tag : JdwpTag) (x : Payload tag)
    → write_python_value tag (to_python tag x) ≡ write_untagged_value tag x
unfolding write_python_value to_python write_untagged_value
write_python_value-to_python byte x = refl
write_python_value-to_python char x = refl
write_python_value-to_python float x = refl
write_python_value-to_python double x = refl
write_python_value-to_python int x = refl
write_python_value-to_python long x = refl
write_python_value-to_python short x = refl
write_python_value-to_python void x = refl
write_python_value-to_python boolean x = refl
write_python_value-to_python array x = refl
write_python_value-to_python object x = refl
write_python_value-to_python string x = refl
write_python_value-to_python thread x = refl
write_python_value-to_python thread_group x = refl
write_python_value-to_python class_loader x = refl
write_python_value-to_python class_object x = refl
