-- ===== src/Commands/Base.antt =====
-- src/jdwpy/commands/base.py: a payload as bytes.
use jdwpy.Prelude.{List, [], none, ℕ, ◌++◌, ◌≡◌}
use jdwpy.Prelude.Int.{pos}
use jdwpy.Struct.{Result, err, ok}
use jdwpy.Spec.{IdSizesSpec}
use jdwpy.Io.{Platform, Read, Write}
use jdwpy.Io.Codec.{RoundTrip}

-- `to_bytes`: the buffer of a new writer, after `serialize`.
unfoldable pub to_bytes : Platform → IdSizesSpec → Write → Result (List ℕ)
to_bytes p s serialize = elim (serialize p (record { spec = s; buffer = [] })) [
  | ok wr ↦ ok wr.buffer
  | err e ↦ err e
]

-- `from_bytes`: what `deserialize` gives on a new reader. Bytes that it leaves are not looked at.
unfoldable pub from_bytes : {A : Type 0} → Platform → IdSizesSpec → Read A → List ℕ → Result A
from_bytes p s deserialize bytes =
    elim (deserialize p
      (record { buffer = bytes; spec = s; offset = pos 0; array_element_tag = none })) [
        | ok (a, rd) ↦ ok a
        | err e ↦ err e
      ]

-- What `to_bytes` and `from_bytes` do with the value: the bytes exist, and they are read as the value,
-- also where others follow them.
abbrev pub Decodes : {A : Type 0} → Platform → IdSizesSpec → Write → Read A → A → Type 0
Decodes {A} p s serialize deserialize v =
    (bytes : List ℕ) × (to_bytes p s serialize ≡ ok bytes)
    × ((rest : List ℕ) → from_bytes p s deserialize (bytes ++ rest) ≡ ok v)

pub RoundTrip-Decodes :
    {A : Type 0} {p : Platform} {s : IdSizesSpec} {w : Write} {r : Read A} {v : A}
    → RoundTrip p s w r v
    → Decodes p s w r v
unfolding to_bytes from_bytes
RoundTrip-Decodes h =
    (h.bytes, rw (to_bytes, h.writes.appends []), λ rest. rw (from_bytes, h.reads.takes [] rest))
