-- ===== src/Constants/Tag.antt =====
-- JdwpTag of src/jdwpy/constants.py.
use jdwpy.Prelude.{Bool, List, [], false, refl, true, ℕ, ◌∷◌, ◌≡◌}
use jdwpy.Prelude.Int.{pos, ℤ}
use jdwpy.Struct.{Result, ok}
use jdwpy.Constants.{to_member}

pub data JdwpTag : Type 0 where
  array byte char object float double int long short void boolean string thread thread_group
        class_loader class_object :
      JdwpTag

unfoldable pub tag_value : JdwpTag → ℕ
tag_value array = 91
tag_value byte = 66
tag_value char = 67
tag_value object = 76
tag_value float = 70
tag_value double = 68
tag_value int = 73
tag_value long = 74
tag_value short = 83
tag_value void = 86
tag_value boolean = 90
tag_value string = 115
tag_value thread = 116
tag_value thread_group = 103
tag_value class_loader = 108
tag_value class_object = 99

abbrev pub tag_members : List JdwpTag
tag_members =
    array ∷ byte ∷ char ∷ object ∷ float ∷ double ∷ int ∷ long ∷ short ∷ void ∷ boolean ∷ string
    ∷ thread ∷ thread_group ∷ class_loader ∷ class_object ∷ []

-- `JdwpTag(v)`
unfoldable pub to_tag : ℤ → Result JdwpTag
unfolding to_member tag_value
to_tag v = to_member tag_value tag_members v

pub to_tag-value : (t : JdwpTag) → to_tag (pos (tag_value t)) ≡ ok t
unfolding to_tag
to_tag-value array = refl
to_tag-value _ = refl

-- `tag.is_object`
unfoldable pub is_object : JdwpTag → Bool
is_object array = true
is_object object = true
is_object string = true
is_object thread = true
is_object thread_group = true
is_object class_loader = true
is_object class_object = true
is_object _ = false
