-- ===== src/Commands/Payloads.antt =====
-- Payloads of src/jdwpy/commands as bytes: numbers and strings, composite events, event
-- requests, and values.
use jdwpy.Prelude.{List, ap, length, refl, sym, ℕ, ◌++◌, ◌∙◌, ◌≡◌}
use jdwpy.Prelude.Int.{ℤ}
use jdwpy.Struct.{ok, pack_signed}
use jdwpy.Spec.{IdSizesSpec, JdwpValue, size}
use jdwpy.Utf8.{Str}
use jdwpy.Io.{Platform, Read, Write}
use jdwpy.Io.Ranges.{IsInt, IsLong, IsString, unpack-pack_signed}
use jdwpy.Io.Reader.{read_int, read_long, read_string}
use jdwpy.Io.Writer.{write_int, write_long, write_signed, write_string}
use jdwpy.Io.Values.{read_value, write_value}
use jdwpy.Io.Primitives.{RoundTrip-int, RoundTrip-long, RoundTrip-string}
use jdwpy.Io.Fields.{IsValue, RoundTrip-value}
use jdwpy.Commands.Base.{Decodes, RoundTrip-Decodes, from_bytes, to_bytes}
use jdwpy.Commands.Event.Composite.{
  CompositeCommand, IsCompositeCommand, RoundTrip-composite_command, deserialize_composite_command,
  serialize_composite_command,
}
use jdwpy.Commands.EventRequest.Requests.{
  IsSetCommand, RoundTrip-set_command, SetCommand, deserialize_set_command, serialize_set_command,
}

-- A Composite command whose request ids and fields fit their widths has bytes, and these are read as the
-- command: every event as the class that its kind names, with its request id, in the same order.
pub composite_command-Decodes :
    (p : Platform) (s : IdSizesSpec) (c : CompositeCommand)
    → IsCompositeCommand p s c
    → Decodes p s (serialize_composite_command c) deserialize_composite_command c
composite_command-Decodes p s c h = RoundTrip-Decodes (RoundTrip-composite_command h)

-- An EventRequest.Set command whose modifiers' fields fit their widths has bytes, and these are read as
-- the command, every modifier as the class that its kind names, in the same order.
pub set_command-Decodes :
    (p : Platform) (s : IdSizesSpec) (c : SetCommand)
    → IsSetCommand p s c
    → Decodes p s (serialize_set_command c) deserialize_set_command c
set_command-Decodes p s c h = RoundTrip-Decodes (RoundTrip-set_command h)

-- A value that its tag's format can hold has bytes, tag first, and they are read as the value.
pub value-Decodes :
    (p : Platform) (s : IdSizesSpec) (v : JdwpValue)
    → IsValue p s v
    → Decodes p s (write_value v) read_value v
value-Decodes p s v h = RoundTrip-Decodes (RoundTrip-value h)

-- What `to_bytes` gives is what `Decodes` speaks of.
Decodes-length :
    {A : Type 0} (p : Platform) (s : IdSizesSpec) (w : Write) (r : Read A) (v : A) (k : ℕ)
    (packed : List ℕ)
    → to_bytes p s w ≡ ok packed
    → length packed ≡ k
    → Decodes p s w r v
    → (bytes : List ℕ) × (to_bytes p s w ≡ ok bytes)
      × (length bytes ≡ k)
      × ((rest : List ℕ) → from_bytes p s r (bytes ++ rest) ≡ ok v)
Decodes-length p s w r v k packed e h (bytes, written, reads) =
    let same : packed ≡ bytes = cc (e, written) in (bytes, written, ap length (sym same) ∙ h, reads)

to_bytes-signed :
    (p : Platform) (s : IdSizesSpec) (w : ℕ) (v : ℤ) (bytes : List ℕ)
    → pack_signed w v ≡ ok bytes
    → to_bytes p s (write_signed w v) ≡ ok bytes
unfolding to_bytes write_signed
to_bytes-signed p s w v bytes h = rw (to_bytes, write_signed, h) refl

-- An int that 32 bits hold in two's complement is written as 4 bytes, which are read as it.
pub int-Decodes :
    (p : Platform) (s : IdSizesSpec) (v : ℤ)
    → IsInt v
    → (bytes : List ℕ) × (to_bytes p s (write_int v) ≡ ok bytes)
      × (length bytes ≡ 4)
      × ((rest : List ℕ) → from_bytes p s read_int (bytes ++ rest) ≡ ok v)
unfolding write_int
int-Decodes p s v h =
    let (packed, e, size, _) = unpack-pack_signed 4 v h in
    Decodes-length p s (write_int v) read_int v 4 packed (to_bytes-signed p s 4 v packed e) size
      (RoundTrip-Decodes (RoundTrip-int h))

-- A long that 64 bits hold in two's complement is written as 8 bytes, which are read as it.
pub long-Decodes :
    (p : Platform) (s : IdSizesSpec) (v : ℤ)
    → IsLong v
    → (bytes : List ℕ) × (to_bytes p s (write_long v) ≡ ok bytes)
      × (length bytes ≡ 8)
      × ((rest : List ℕ) → from_bytes p s read_long (bytes ++ rest) ≡ ok v)
unfolding write_long
long-Decodes p s v h =
    let (packed, e, size, _) = unpack-pack_signed 8 v h in
    Decodes-length p s (write_long v) read_long v 8 packed (to_bytes-signed p s 8 v packed e) size
      (RoundTrip-Decodes (RoundTrip-long h))

-- A string of scalar values whose UTF-8 bytes can be counted in an int has bytes, and they are read as the
-- string.
pub string-Decodes :
    (p : Platform) (s : IdSizesSpec) (v : Str)
    → IsString v
    → Decodes p s (write_string v) read_string v
string-Decodes p s v h = RoundTrip-Decodes (RoundTrip-string h)
