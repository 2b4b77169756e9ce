-- ===== src/Constants/TypeTag.antt =====
-- JdwpTypeTag of src/jdwpy/constants.py.
use jdwpy.Prelude.{List, [], refl, ℕ, ◌∷◌, ◌≡◌}
use jdwpy.Prelude.Int.{pos, ℤ}
use jdwpy.Struct.{Result, ok}
use jdwpy.Constants.{to_member}

pub data JdwpTypeTag : Type 0 where
  class interface array : JdwpTypeTag

unfoldable pub type_tag_value : JdwpTypeTag → ℕ
type_tag_value class = 1
type_tag_value interface = 2
type_tag_value array = 3

abbrev pub type_tag_members : List JdwpTypeTag
type_tag_members = class ∷ interface ∷ array ∷ []

-- `JdwpTypeTag(v)`
unfoldable pub to_type_tag : ℤ → Result JdwpTypeTag
unfolding to_member type_tag_value
to_type_tag v = to_member type_tag_value type_tag_members v

pub to_type_tag-value : (t : JdwpTypeTag) → to_type_tag (pos (type_tag_value t)) ≡ ok t
unfolding to_type_tag
to_type_tag-value class = refl
to_type_tag-value _ = refl
