-- ===== src/Commands/ObjectReference/Collection.antt =====
-- src/jdwpy/commands/object_reference.py: DisableCollection, EnableCollection, IsCollected.
use jdwpy.Prelude.{Bool}
use jdwpy.Prelude.Int.{ℤ}
use jdwpy.Spec.{IdSizesSpec}
use jdwpy.Io.{Platform, Read, Write, return, skip, ◌>>=◌}
use jdwpy.Io.Ranges.{IsId}
use jdwpy.Io.Reader.{read_boolean, read_object_id}
use jdwpy.Io.Writer.{write_boolean, write_object_id}
use jdwpy.Io.Codec.{RoundTrip, RoundTrip-last, RoundTrip-return}
use jdwpy.Io.Primitives.{RoundTrip-boolean, RoundTrip-object_id}

pub data DisableCollectionResponse : Type 0 where
  disable_collection_response : DisableCollectionResponse

unfoldable pub serialize_disable_collection_response : DisableCollectionResponse → Write
serialize_disable_collection_response _ = skip

unfoldable pub deserialize_disable_collection_response : Read DisableCollectionResponse
deserialize_disable_collection_response = return disable_collection_response

pub RoundTrip-disable_collection_response :
    {p : Platform} {s : IdSizesSpec} (c : DisableCollectionResponse)
    → RoundTrip p s
        (serialize_disable_collection_response c)
        deserialize_disable_collection_response
        c
unfolding serialize_disable_collection_response deserialize_disable_collection_response
RoundTrip-disable_collection_response disable_collection_response =
    RoundTrip-return disable_collection_response

pub record DisableCollectionCommand : Type 0 where
  pub object : ℤ

unfoldable pub serialize_disable_collection_command : DisableCollectionCommand → Write
serialize_disable_collection_command c = write_object_id c.object

unfoldable pub deserialize_disable_collection_command : Read DisableCollectionCommand
deserialize_disable_collection_command = do
  object ← read_object_id
  return (record { object = object })

abbrev pub IsDisableCollectionCommand : Platform → IdSizesSpec → DisableCollectionCommand → Type 0
IsDisableCollectionCommand p s c = IsId s.object_id_struct c.object

pub RoundTrip-disable_collection_command :
    {p : Platform} {s : IdSizesSpec} {c : DisableCollectionCommand}
    → IsDisableCollectionCommand p s c
    → RoundTrip p s
        (serialize_disable_collection_command c)
        deserialize_disable_collection_command
        c
unfolding serialize_disable_collection_command deserialize_disable_collection_command
RoundTrip-disable_collection_command h = RoundTrip-last _ (RoundTrip-object_id h)

pub data EnableCollectionResponse : Type 0 where
  enable_collection_response : EnableCollectionResponse

unfoldable pub serialize_enable_collection_response : EnableCollectionResponse → Write
serialize_enable_collection_response _ = skip

unfoldable pub deserialize_enable_collection_response : Read EnableCollectionResponse
deserialize_enable_collection_response = return enable_collection_response

pub RoundTrip-enable_collection_response :
    {p : Platform} {s : IdSizesSpec} (c : EnableCollectionResponse)
    → RoundTrip p s
        (serialize_enable_collection_response c)
        deserialize_enable_collection_response
        c
unfolding serialize_enable_collection_response deserialize_enable_collection_response
RoundTrip-enable_collection_response enable_collection_response =
    RoundTrip-return enable_collection_response

pub record EnableCollectionCommand : Type 0 where
  pub object : ℤ

unfoldable pub serialize_enable_collection_command : EnableCollectionCommand → Write
serialize_enable_collection_command c = write_object_id c.object

unfoldable pub deserialize_enable_collection_command : Read EnableCollectionCommand
deserialize_enable_collection_command = do
  object ← read_object_id
  return (record { object = object })

abbrev pub IsEnableCollectionCommand : Platform → IdSizesSpec → EnableCollectionCommand → Type 0
IsEnableCollectionCommand p s c = IsId s.object_id_struct c.object

pub RoundTrip-enable_collection_command :
    {p : Platform} {s : IdSizesSpec} {c : EnableCollectionCommand}
    → IsEnableCollectionCommand p s c
    → RoundTrip p s (serialize_enable_collection_command c) deserialize_enable_collection_command c
unfolding serialize_enable_collection_command deserialize_enable_collection_command
RoundTrip-enable_collection_command h = RoundTrip-last _ (RoundTrip-object_id h)

pub record IsCollectedResponse : Type 0 where
  pub is_collected : Bool

unfoldable pub serialize_is_collected_response : IsCollectedResponse → Write
serialize_is_collected_response c = write_boolean c.is_collected

unfoldable pub deserialize_is_collected_response : Read IsCollectedResponse
deserialize_is_collected_response = do
  is_collected ← read_boolean
  return (record { is_collected = is_collected })

pub RoundTrip-is_collected_response :
    {p : Platform} {s : IdSizesSpec} {c : IsCollectedResponse}
    → RoundTrip p s (serialize_is_collected_response c) deserialize_is_collected_response c
unfolding serialize_is_collected_response deserialize_is_collected_response
RoundTrip-is_collected_response = RoundTrip-last _ RoundTrip-boolean

pub record IsCollectedCommand : Type 0 where
  pub object : ℤ

unfoldable pub serialize_is_collected_command : IsCollectedCommand → Write
serialize_is_collected_command c = write_object_id c.object

unfoldable pub deserialize_is_collected_command : Read IsCollectedCommand
deserialize_is_collected_command = do object ← read_object_id; return (record { object = object })

abbrev pub IsIsCollectedCommand : Platform → IdSizesSpec → IsCollectedCommand → Type 0
IsIsCollectedCommand p s c = IsId s.object_id_struct c.object

pub RoundTrip-is_collected_command :
    {p : Platform} {s : IdSizesSpec} {c : IsCollectedCommand}
    → IsIsCollectedCommand p s c
    → RoundTrip p s (serialize_is_collected_command c) deserialize_is_collected_command c
unfolding serialize_is_collected_command deserialize_is_collected_command
RoundTrip-is_collected_command h = RoundTrip-last _ (RoundTrip-object_id h)
