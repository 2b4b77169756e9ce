-- ===== src/Commands/ArrayReference/SetValues.antt =====
-- src/jdwpy/commands/array_reference.py: the SetValues command. The values are on the wire without a tag.
use jdwpy.Prelude.{All, List, [], append-nil, false, length, none, refl, some, sym, ◌≡◌}
use jdwpy.Prelude.Int.{pos, ℤ}
use jdwpy.Struct.{ok}
use jdwpy.Constants.Tag.{JdwpTag, int}
use jdwpy.Spec.{IdSizesSpec, JdwpValue}
use jdwpy.Io.{Platform, Read, Write, for_each, read_list, return, skip, ◌>>=◌, ◌>>◌}
use jdwpy.Io.Ranges.{IsId, IsInt}
use jdwpy.Io.Reader.{read_array_object_id, read_int}
use jdwpy.Io.Writer.{write_array_object_id, write_int}
use jdwpy.Io.Dynamic.{to_python, write_python_value, write_python_value-to_python}
use jdwpy.Io.Codec.{
  RoundTrip, RoundTrip-All, RoundTrip-last, RoundTrip-peek, RoundTrip-return, RoundTrip-seq,
}
use jdwpy.Io.Primitives.{RoundTrip-int, RoundTrip-object_id}
use jdwpy.Commands.ArrayReference.Region.{
  IsElement, RoundTrip-element, deserialize_element, serialize_element,
}
use mathlib.Core.Path.{subst}

pub record SetValuesCommand : Type 0 where
  pub array_object : ℤ
  pub first_index : ℤ
  pub tag : JdwpTag
  pub values : List JdwpValue

-- `writer.write_untagged_value(self.tag, val.value)`: the tag is the command's, whatever the value's own.
unfoldable pub serialize_slot : JdwpTag → JdwpValue → Write
serialize_slot tag v = write_python_value tag (to_python v.tag v.value)

unfoldable pub serialize_set_values_command : SetValuesCommand → Write
unfolding serialize_slot
serialize_set_values_command c = do
  write_array_object_id c.array_object
  write_int c.first_index
  write_int (pos (length c.values))
  for_each c.values (serialize_slot c.tag)

-- `getattr(reader, "array_element_tag", JdwpTag.INT)`
unfoldable pub get_element_tag : Read JdwpTag
get_element_tag p rd = ok (elim rd.array_element_tag [ some tag ↦ tag | none ↦ int ], rd)

-- `deserialize`, over the way in which the tag is found.
unfoldable pub read_set_values : Read JdwpTag → Read SetValuesCommand
read_set_values element_tag = do
  array_object ← read_array_object_id
  first_index ← read_int
  num ← read_int
  tag ← element_tag
  values ← read_list num (deserialize_element false tag)
  return (record {
    array_object = array_object;
    first_index = first_index;
    tag = tag;
    values = values;
  })

unfoldable pub deserialize_set_values_command : Read SetValuesCommand
unfolding get_element_tag read_set_values
deserialize_set_values_command = read_set_values get_element_tag

-- The command can be written, and each value has the command's tag.
abbrev pub IsSetValuesCommand : Platform → IdSizesSpec → SetValuesCommand → Type 0
IsSetValuesCommand p s c =
    IsId s.object_id_struct c.array_object
    × IsInt c.first_index
    × IsInt (pos (length c.values))
    × All (IsElement false c.tag p s) c.values

module _ {p : Platform} {s : IdSizesSpec} where
  RoundTrip-slot :
      (tag : JdwpTag) (v : JdwpValue)
      → IsElement false tag p s v
      → RoundTrip p s (serialize_slot tag v) (deserialize_element false tag) v
  unfolding serialize_slot serialize_element
  RoundTrip-slot tag v (x, h, e) =
      subst (λ u. RoundTrip p s (serialize_slot tag u) (deserialize_element false tag) u) (sym e)
        (rw (write_python_value-to_python tag x)
          (RoundTrip-element false tag (record { tag = tag; value = x }) (x, h, refl)))

  -- The reader gets the command back where it finds the command's tag.
  RoundTrip-read_set_values :
      (c : SetValuesCommand) (element_tag : Read JdwpTag)
      → IsSetValuesCommand p s c
      → RoundTrip p s skip element_tag c.tag
      → RoundTrip p s (serialize_set_values_command c) (read_set_values element_tag) c
  unfolding serialize_set_values_command read_set_values
  RoundTrip-read_set_values c element_tag h found = RoundTrip-seq _ (RoundTrip-object_id h.0) (
      RoundTrip-seq _ (RoundTrip-int h.1) (
        RoundTrip-seq _ (RoundTrip-int h.2) (
          RoundTrip-peek _ found (
            RoundTrip-last _ (
              RoundTrip-All (serialize_slot c.tag) (deserialize_element false c.tag)
                (IsElement false c.tag p s) c.values (λ x k. RoundTrip-slot c.tag x k) h.3)))))

  RoundTrip-get_element_tag : RoundTrip p s skip get_element_tag int
  unfolding get_element_tag skip
  RoundTrip-get_element_tag = record {
    bytes = [];
    writes = record { appends = λ out. rw append-nil };
    reads = record { takes = λ front rest. rw append-nil };
  }

  pub RoundTrip-set_values_command :
      {c : SetValuesCommand}
      → IsSetValuesCommand p s c
      → c.tag ≡ int
      → RoundTrip p s (serialize_set_values_command c) deserialize_set_values_command c
  unfolding deserialize_set_values_command
  RoundTrip-set_values_command {c} h e =
      RoundTrip-read_set_values c get_element_tag h
        (subst (RoundTrip p s skip get_element_tag) (sym e) RoundTrip-get_element_tag)

  -- Whatever the command's tag, a reader that is told it gets the command back.
  pub RoundTrip-told_tag :
      {c : SetValuesCommand}
      → IsSetValuesCommand p s c
      → RoundTrip p s (serialize_set_values_command c) (read_set_values (return c.tag)) c
  RoundTrip-told_tag {c} h = RoundTrip-read_set_values c (return c.tag) h (RoundTrip-return c.tag)
