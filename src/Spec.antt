-- ===== src/Spec.antt =====
-- src/jdwpy/spec.py: the sizes of identifiers, locations, and tagged values. The identifier types
-- (`ObjectID` and the others) are `NewType`s over `int`, so they are integers here.
pub mod Sizes
use jdwpy.Prelude.{Bool, if◌then◌else◌, ℕ}
use jdwpy.Prelude.Int.{pos, ℤ, ◌==ℤ◌}
use jdwpy.Struct.{Result, err, ok, value_error}
use jdwpy.Constants.Tag.{JdwpTag, boolean, double, float, void}
use jdwpy.Constants.TypeTag.{JdwpTypeTag}

-- `_STRUCT_32` and `_STRUCT_64`, the formats ">I" and ">Q".
pub data IdStruct : Type 0 where
  struct_32 struct_64 : IdStruct

-- `struct_obj.size`
abbrev pub size : IdStruct → ℕ
size struct_32 = 4
size struct_64 = 8

unfoldable pub get_struct_for_size : ℤ → Result IdStruct
get_struct_for_size n =
    if n ==ℤ pos 4 then ok struct_32 else if n ==ℤ pos 8 then ok struct_64 else err value_error

pub record IdSizesSpec : Type 0 where
  pub field_id_struct : IdStruct
  pub method_id_struct : IdStruct
  pub object_id_struct : IdStruct
  pub reference_type_id_struct : IdStruct
  pub frame_id_struct : IdStruct

infixl 5 ◌>>=◌
abbrev ◌>>=◌ {ℓ κ} : {A : Type ℓ} {B : Type κ} → Result A → (A → Result B) → Result B
ok a >>= f = f a
err e >>= f = err e

-- `IdSizesSpec.create` with its five sizes given.
unfoldable pub create : ℤ → ℤ → ℤ → ℤ → ℤ → Result IdSizesSpec
unfolding get_struct_for_size
create field_id_size method_id_size object_id_size reference_type_id_size frame_id_size = do
  f ← get_struct_for_size field_id_size
  m ← get_struct_for_size method_id_size
  o ← get_struct_for_size object_id_size
  r ← get_struct_for_size reference_type_id_size
  fr ← get_struct_for_size frame_id_size
  ok (record {
    field_id_struct = f;
    method_id_struct = m;
    object_id_struct = o;
    reference_type_id_struct = r;
    frame_id_struct = fr;
  })

-- `IdSizesSpec.create()`: every size is 8.
abbrev pub default_spec : IdSizesSpec
default_spec = record {
  field_id_struct = struct_64;
  method_id_struct = struct_64;
  object_id_struct = struct_64;
  reference_type_id_struct = struct_64;
  frame_id_struct = struct_64;
}

pub record Location : Type 0 where
  pub type_tag : JdwpTypeTag
  pub class_id : ℤ
  pub method_id : ℤ
  pub index : ℤ

pub record TaggedObjectId : Type 0 where
  pub tag : JdwpTag
  pub object_id : ℤ

-- What a value with the tag holds. The source says `Any`; this is the type that the reader gives and
-- that the writer is meant for. A float is the pattern of its 64 bits, and `None` is `tt`.
abbrev pub Payload : JdwpTag → Type 0
Payload float = ℕ
Payload double = ℕ
Payload void = Unit {0}
Payload boolean = Bool
Payload _ = ℤ

pub record JdwpValue : Type 0 where
  pub tag : JdwpTag
  pub value : Payload tag
