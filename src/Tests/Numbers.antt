-- ===== src/Tests/Numbers.antt =====
-- Numbers, texts, and the bytes that a reader is given.
use jdwpy.Prelude.{List, [], ap, arith, length, none, refl, some, ℕ, ◌++◌, ◌<◌, ◌∷◌, ◌≡◌}
use jdwpy.Prelude.Int.{negsuc, pos}
use jdwpy.Struct.{ok}
use jdwpy.Utf8.{decode, decode_from, emit, encode, encode_point, is_scalar, step}
use jdwpy.Constants.ErrorCode.{error_code_value, from_int, vm_dead}
use jdwpy.Constants.Codes.{from_int-error_code_value}
use jdwpy.Spec.{create, default_spec, struct_64}
use jdwpy.Spec.Sizes.{IsSize, create_sound, create_total}
use jdwpy.Io.{JdwpReader}
use jdwpy.Io.Codec.{cursor}
use jdwpy.Io.Ranges.{IsString}
use jdwpy.Io.Reader.{read_int, read_long, read_string, read_text}
use jdwpy.Io.Writer.{write_int, write_long, write_string}
use jdwpy.Io.Overrun.{read_text-negative, read_text-past_end}
use jdwpy.Commands.Base.{Decodes, from_bytes, to_bytes}
use jdwpy.Commands.Payloads.{int-Decodes, long-Decodes, string-Decodes}
use jdwpy.Tests.Data.{upper_half}

from_int-error_code_value_example : from_int (pos (error_code_value vm_dead)) ≡ some vm_dead
from_int-error_code_value_example = from_int-error_code_value vm_dead

int-Decodes_example :
    (bytes : List ℕ) × (to_bytes upper_half default_spec (write_int (negsuc 4)) ≡ ok bytes)
    × (length bytes ≡ 4)
    × ((rest : List ℕ)
        → from_bytes upper_half default_spec read_int (bytes ++ rest) ≡ ok (negsuc 4))
int-Decodes_example = int-Decodes upper_half default_spec (negsuc 4) (omega arith)

long-Decodes_example :
    (bytes : List ℕ) × (to_bytes upper_half default_spec (write_long (pos 65535)) ≡ ok bytes)
    × (length bytes ≡ 8)
    × ((rest : List ℕ)
        → from_bytes upper_half default_spec read_long (bytes ++ rest) ≡ ok (pos 65535))
long-Decodes_example = long-Decodes upper_half default_spec (pos 65535) (omega arith)

-- "Hé", which has three bytes.
abbrev hey : List ℕ
hey = 72 ∷ 233 ∷ []

encode-hey : encode hey ≡ ok (72 ∷ 195 ∷ 169 ∷ [])
unfolding encode encode_point is_scalar
encode-hey = refl

hey-IsString : IsString hey
unfolding is_scalar
hey-IsString = record {
  is_text = (refl, (refl, tt));
  short = λ bytes e.
      let same : bytes ≡ 72 ∷ 195 ∷ 169 ∷ [] = cc (e, encode-hey) in omega (arith, ap length same);
}

string-Decodes_example : Decodes upper_half default_spec (write_string hey) read_string hey
string-Decodes_example = string-Decodes upper_half default_spec hey hey-IsString

create_total_example : create (pos 8) (pos 8) (pos 8) (pos 8) (pos 8) ≡ ok default_spec
create_total_example = create_total default_spec

create_sound_example :
    IsSize (pos 8) struct_64
    × IsSize (pos 8) struct_64
    × IsSize (pos 8) struct_64
    × IsSize (pos 8) struct_64
    × IsSize (pos 8) struct_64
create_sound_example =
    create_sound (pos 8) (pos 8) (pos 8) (pos 8) (pos 8) default_spec (create_total default_spec)

decode-hi : decode (72 ∷ 105 ∷ []) ≡ ok (72 ∷ 105 ∷ [])
unfolding decode decode_from step emit
decode-hi = refl

-- A length of 9 in front of two bytes.
read_text-past_end_example :
    (rd : JdwpReader) × (read_text
        (pos 9)
        upper_half
        (cursor default_spec (0 ∷ 0 ∷ 0 ∷ 9 ∷ []) (72 ∷ 105 ∷ []))
      ≡ ok (72 ∷ 105 ∷ [], rd))
    × (rd.offset ≡ pos 13)
    × (length rd.buffer < 13)
read_text-past_end_example =
    read_text-past_end upper_half default_spec (0 ∷ 0 ∷ 0 ∷ 9 ∷ []) (72 ∷ 105 ∷ []) 9
      (72 ∷ 105 ∷ []) (omega arith) decode-hi

-- A length of -4 takes the reader back to the length.
read_text-negative_example :
    read_text (negsuc 3) upper_half (cursor default_spec (255 ∷ 255 ∷ 255 ∷ 252 ∷ []) (72 ∷ []))
    ≡ ok (
      [],
      record {
        buffer = 255 ∷ 255 ∷ 255 ∷ 252 ∷ 72 ∷ [];
        spec = default_spec;
        offset = pos 0;
        array_element_tag = none;
      },
    )
read_text-negative_example =
    read_text-negative upper_half default_spec (255 ∷ 255 ∷ 255 ∷ 252 ∷ []) (72 ∷ []) 3
      (omega arith)
