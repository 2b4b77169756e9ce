-- ===== src/Utf8.antt =====
-- Python's strict UTF-8 codec, which `write_string` and `read_string` of src/jdwpy/io.py call.
-- A string is the list of its code points.
pub mod RoundTrip
use jdwpy.Prelude.{
  Bool, List, Option, [], if◌then◌else◌, leb, ltb, none, some, ℕ, ◌%◌, ◌&&◌, ◌*◌, ◌++◌, ◌+◌, ◌-◌,
  ◌/◌, ◌==◌, ◌||◌, ◌∷◌,
}
use jdwpy.Struct.{Result, err, ok, unicode_error}

abbrev pub Str : Type 0
Str = List ℕ

-- The code points that UTF-8 encodes: no surrogates, nothing past U+10FFFF.
unfoldable pub is_scalar : ℕ → Bool
is_scalar c = ltb c 0xd800 || (leb 0xe000 c && ltb c 0x110000)

unfoldable pub encode_point : ℕ → List ℕ
encode_point c =
    if ltb c 0x80
    then c ∷ []
    else if ltb c 0x800
    then (0xc0 + c / 64) ∷ (0x80 + c % 64) ∷ []
    else if ltb c 0x10000
    then (0xe0 + c / 4096) ∷ (0x80 + c / 64 % 64) ∷ (0x80 + c % 64) ∷ []
    else (0xf0 + c / 262144) ∷ (0x80 + c / 4096 % 64) ∷ (0x80 + c / 64 % 64) ∷ (0x80 + c % 64) ∷ []

-- `val.encode("utf-8")`
unfoldable pub encode : Str → Result (List ℕ)
encode [] = ok []
encode (c ∷ s) = elim (encode s) [
  | ok bytes ↦ if is_scalar c then ok (encode_point c ++ bytes) else err unicode_error
  | err e ↦ err (if is_scalar c then e else unicode_error)
]

-- Inside a code point: the bytes still needed, the bits read, and the range of the next byte.
pub data State : Type 0 where
  idle : State
  inside : ℕ → ℕ → ℕ → ℕ → State

-- A step of the decoder gives its next state and the code point that the byte completed.
unfoldable pub step : State → ℕ → Result (State × Option ℕ)
step idle b =
    if ltb b 0x80
    then ok (idle, some b)
    else if leb 0xc2 b && leb b 0xdf
    then ok (inside 1 (b - 0xc0) 0x80 0xbf, none)
    else if leb 0xe0 b && leb b 0xef
    then ok (
      inside 2 (b - 0xe0) (if b == 0xe0 then 0xa0 else 0x80) (if b == 0xed then 0x9f else 0xbf),
      none,
    )
    else if leb 0xf0 b && leb b 0xf4
    then ok (
      inside 3 (b - 0xf0) (if b == 0xf0 then 0x90 else 0x80) (if b == 0xf4 then 0x8f else 0xbf),
      none,
    )
    else err unicode_error
step (inside needed bits low high) b =
    if leb low b && leb b high
    then (if leb needed 1
        then ok (idle, some (bits * 64 + (b - 0x80)))
        else ok (inside (needed - 1) (bits * 64 + (b - 0x80)) 0x80 0xbf, none))
    else err unicode_error

unfoldable pub emit : Option ℕ → Result Str → Result Str
emit none r = r
emit (some c) (ok s) = ok (c ∷ s)
emit (some c) (err e) = err e

-- Bytes left over in the middle of a code point are an error.
unfoldable pub decode_from : State → List ℕ → Result Str
decode_from idle [] = ok []
decode_from (inside _ _ _ _) [] = err unicode_error
decode_from s (b ∷ bs) = elim (step s b) [
  | ok (s', point) ↦ emit point (decode_from s' bs)
  | err e ↦ err e
]

-- `data.decode("utf-8")`
unfoldable pub decode : List ℕ → Result Str
unfolding decode_from step emit
decode bytes = decode_from idle bytes
