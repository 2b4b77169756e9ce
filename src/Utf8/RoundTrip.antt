-- ===== src/Utf8/RoundTrip.antt =====
-- Decoding what was encoded gives the string back (src/jdwpy/io.py).
use jdwpy.Prelude.{
  All, List, [], arith, refl, some, true, ℕ, ◌%◌, ◌*◌, ◌++◌, ◌+◌, ◌/◌, ◌<◌, ◌∙◌, ◌∷◌, ◌≡◌, ◌≤◌,
}
use jdwpy.Struct.{ok}
use jdwpy.Utf8.{Str, decode, decode_from, emit, encode, encode_point, idle, is_scalar, step}

-- A string of scalar values.
abbrev pub IsText : Str → Type 0
IsText s = All (λ c. is_scalar c ≡ true) s

one_byte :
    (c : ℕ) (rest : List ℕ)
    → c < 0x80
    → decode_from idle (c ∷ rest) ≡ emit (some c) (decode_from idle rest)
unfolding decode_from step
one_byte c rest h = ground arith

two_bytes :
    (a b : ℕ) (rest : List ℕ)
    → 2 ≤ a
    → a < 32
    → b < 64
    → decode_from idle ((0xc0 + a) ∷ (0x80 + b) ∷ rest)
      ≡ emit (some (a * 64 + b)) (decode_from idle rest)
unfolding decode_from step emit
two_bytes a b rest h k l = ground arith

three_bytes :
    (a b c : ℕ) (rest : List ℕ)
    → a < 16
    → b < 64
    → c < 64
    → is_scalar (a * 4096 + b * 64 + c) ≡ true
    → 0x800 ≤ a * 4096 + b * 64 + c
    → decode_from idle ((0xe0 + a) ∷ (0x80 + b) ∷ (0x80 + c) ∷ rest)
      ≡ emit (some (a * 4096 + b * 64 + c)) (decode_from idle rest)
unfolding decode_from step emit is_scalar
three_bytes a b c rest ha hb hc scalar low = ground arith

four_bytes :
    (a b c d : ℕ) (rest : List ℕ)
    → b < 64
    → c < 64
    → d < 64
    → a * 262144 + b * 4096 + c * 64 + d < 0x110000
    → 0x10000 ≤ a * 262144 + b * 4096 + c * 64 + d
    → decode_from idle ((0xf0 + a) ∷ (0x80 + b) ∷ (0x80 + c) ∷ (0x80 + d) ∷ rest)
      ≡ emit (some (a * 262144 + b * 4096 + c * 64 + d)) (decode_from idle rest)
unfolding decode_from step emit
four_bytes a b c d rest hb hc hd high low = ground arith

decode_from-encode_point :
    (c : ℕ) (rest : List ℕ)
    → is_scalar c ≡ true
    → decode_from idle (encode_point c ++ rest) ≡ emit (some c) (decode_from idle rest)
unfolding encode_point is_scalar
decode_from-encode_point c rest h = ground (
  arith,
  one_byte c rest,
  two_bytes (c / 64) (c % 64) rest,
  three_bytes (c / 4096) (c / 64 % 64) (c % 64) rest,
  four_bytes (c / 262144) (c / 4096 % 64) (c / 64 % 64) (c % 64) rest,
)

-- A text encodes, and decoding the bytes gives it back.
pub decode-encode :
    (s : Str) → IsText s → (bytes : List ℕ) × (encode s ≡ ok bytes) × (decode bytes ≡ ok s)
unfolding encode decode
decode-encode [] h = ([], refl, refl)
decode-encode (c ∷ s) (hc, hs) =
    let (bytes, encoded, decoded) = decode-encode s hs in
    (encode_point c ++ bytes, rw (encoded, hc), decode_from-encode_point c bytes hc ∙ rw decoded)
