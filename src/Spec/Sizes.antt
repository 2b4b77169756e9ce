-- ===== src/Spec/Sizes.antt =====
-- The sizes that `IdSizesSpec.create` of src/jdwpy/spec.py takes.
use jdwpy.Prelude.{arith, ◌≡◌}
use jdwpy.Prelude.Int.{pos, ℤ}
use jdwpy.Struct.{ok}
use jdwpy.Spec.{IdSizesSpec, IdStruct, create, size}

abbrev pub IsSize : ℤ → IdStruct → Type 0
IsSize n k = n ≡ pos (size k)

-- The sizes of the structs of a spec make that spec.
pub create_total :
    (spec : IdSizesSpec)
    → create
        (pos (size spec.field_id_struct))
        (pos (size spec.method_id_struct))
        (pos (size spec.object_id_struct))
        (pos (size spec.reference_type_id_struct))
        (pos (size spec.frame_id_struct))
      ≡ ok spec
unfolding create
create_total spec = ground arith

-- A spec that is made has for each kind of identifier the struct of the size given for it, so that each
-- of the five sizes is 4 or 8.
pub create_sound :
    (f m o r fr : ℤ) (spec : IdSizesSpec)
    → create f m o r fr ≡ ok spec
    → IsSize f spec.field_id_struct
      × IsSize m spec.method_id_struct
      × IsSize o spec.object_id_struct
      × IsSize r spec.reference_type_id_struct
      × IsSize fr spec.frame_id_struct
unfolding create
create_sound f m o r fr spec h = ground arith
