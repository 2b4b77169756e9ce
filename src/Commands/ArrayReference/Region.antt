-- ===== src/Commands/ArrayReference/Region.antt =====
-- src/jdwpy/commands/array_reference.py: array regions and the GetValues reply.
use jdwpy.Prelude.{All, Bool, List, false, length, true, ◌≡◌}
use jdwpy.Prelude.Int.{pos}
use jdwpy.Constants.Tag.{JdwpTag, is_object}
use jdwpy.Spec.{IdSizesSpec, JdwpValue, Payload}
use jdwpy.Io.{Platform, Read, Write, for_each, read_list, return, ◌>>=◌, ◌>>◌}
use jdwpy.Io.Ranges.{IsInt}
use jdwpy.Io.Reader.{read_int, read_tag}
use jdwpy.Io.Writer.{write_int, write_tag}
use jdwpy.Io.Values.{read_untagged_value, write_untagged_value}
use jdwpy.Io.Codec.{RoundTrip, RoundTrip-All, RoundTrip-last, RoundTrip-seq}
use jdwpy.Io.Primitives.{RoundTrip-int}
use jdwpy.Io.Fields.{IsPayload, IsValue, RoundTrip-tag, RoundTrip-untagged_value}
use mathlib.Core.Path.{subst, sym}

pub record JdwpArrayRegion : Type 0 where
  pub tag : JdwpTag
  pub values : List JdwpValue

-- An element has a tag of its own where the region's tag is one of objects.
unfoldable pub serialize_element : Bool → JdwpValue → Write
serialize_element true v = do write_tag v.tag; write_untagged_value v.tag v.value
serialize_element false v = write_untagged_value v.tag v.value

unfoldable pub serialize_array_region : JdwpArrayRegion → Write
serialize_array_region c = do
  write_tag c.tag
  write_int (pos (length c.values))
  for_each c.values (serialize_element (is_object c.tag))

unfoldable pub deserialize_element : Bool → JdwpTag → Read JdwpValue
deserialize_element true tag = do
  elem_tag ← read_tag
  value ← read_untagged_value elem_tag
  return (record { tag = elem_tag; value = value })
deserialize_element false tag = do
  value ← read_untagged_value tag
  return (record { tag = tag; value = value })

unfoldable pub deserialize_array_region : Read JdwpArrayRegion
deserialize_array_region = do
  tag ← read_tag
  num ← read_int
  values ← read_list num (deserialize_element (is_object tag) tag)
  return (record { tag = tag; values = values })

-- Each element can be written, and has the region's tag where it writes none.
abbrev pub IsElement : Bool → JdwpTag → Platform → IdSizesSpec → JdwpValue → Type 0
IsElement true tag p s v = IsValue p s v
IsElement false tag p s v =
    (x : Payload tag) × IsPayload p s tag x × (v ≡ record { tag = tag; value = x })

abbrev pub IsArrayRegion : Platform → IdSizesSpec → JdwpArrayRegion → Type 0
IsArrayRegion p s c =
    IsInt (pos (length c.values)) × All (IsElement (is_object c.tag) c.tag p s) c.values

module _ {p : Platform} {s : IdSizesSpec} where
  pub RoundTrip-element :
      (b : Bool) (tag : JdwpTag) (v : JdwpValue)
      → IsElement b tag p s v
      → RoundTrip p s (serialize_element b v) (deserialize_element b tag) v
  unfolding serialize_element deserialize_element
  RoundTrip-element true tag v h = RoundTrip-seq _ RoundTrip-tag (
      RoundTrip-last (λ x. record { tag = v.tag; value = x })
        (RoundTrip-untagged_value v.tag v.value h))
  RoundTrip-element false tag v (x, h, e) =
      subst (λ u. RoundTrip p s (serialize_element false u) (deserialize_element false tag) u)
        (sym e)
        (RoundTrip-last (λ y. record { tag = tag; value = y }) (RoundTrip-untagged_value tag x h))

  pub RoundTrip-array_region :
      {c : JdwpArrayRegion}
      → IsArrayRegion p s c
      → RoundTrip p s (serialize_array_region c) deserialize_array_region c
  unfolding serialize_array_region deserialize_array_region
  RoundTrip-array_region {c} h = RoundTrip-seq _ RoundTrip-tag (
      RoundTrip-seq _ (RoundTrip-int h.0) (
        RoundTrip-last _ (
          RoundTrip-All (serialize_element (is_object c.tag))
            (deserialize_element (is_object c.tag) c.tag) (IsElement (is_object c.tag) c.tag p s)
            c.values (λ x k. RoundTrip-element (is_object c.tag) c.tag x k) h.1)))

pub record GetValuesResponse : Type 0 where
  pub values : JdwpArrayRegion

unfoldable pub serialize_get_values_response : GetValuesResponse → Write
serialize_get_values_response c = serialize_array_region c.values

unfoldable pub deserialize_get_values_response : Read GetValuesResponse
deserialize_get_values_response = do
  values ← deserialize_array_region
  return (record { values = values })

abbrev pub IsGetValuesResponse : Platform → IdSizesSpec → GetValuesResponse → Type 0
IsGetValuesResponse p s c = IsArrayRegion p s c.values

pub RoundTrip-get_values_response :
    {p : Platform} {s : IdSizesSpec} {c : GetValuesResponse}
    → IsGetValuesResponse p s c
    → RoundTrip p s (serialize_get_values_response c) deserialize_get_values_response c
unfolding serialize_get_values_response deserialize_get_values_response
RoundTrip-get_values_response h = RoundTrip-last _ (RoundTrip-array_region h)
