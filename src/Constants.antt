-- ===== src/Constants.antt =====
-- src/jdwpy/constants.py: the enumerations of the protocol, and what Python's `IntEnum` and `IntFlag`
-- do with an integer.
pub mod Tag
pub mod TypeTag
pub mod ErrorCode
pub mod EventKind
pub mod Policies
pub mod Flags
pub mod Codes
use jdwpy.Prelude.{List, Option, [], arith, if◌then◌else◌, none, some, ℕ, ◌∷◌, ◌≡◌}
use jdwpy.Prelude.Int.{pos, ℤ, ◌==ℤ◌}
use jdwpy.Struct.{Result, err, ok, value_error}

-- The member of an enumeration that has the value.
unfoldable pub find_member {ℓ} : {A : Type ℓ} → (A → ℕ) → List A → ℤ → Option A
find_member code [] v = none
find_member code (a ∷ rest) v = if pos (code a) ==ℤ v then some a else find_member code rest v

-- Calling an `IntEnum` class: the member, or a ValueError.
unfoldable pub to_member {ℓ} : {A : Type ℓ} → (A → ℕ) → List A → ℤ → Result A
unfolding find_member
to_member code members v = elim (find_member code members v) [
  | none ↦ err value_error
  | some a ↦ ok a
]

-- HANDSHAKE, the ASCII bytes of "JDWP-Handshake".
abbrev pub handshake : List ℕ
handshake = 74 ∷ 68 ∷ 87 ∷ 80 ∷ 45 ∷ 72 ∷ 97 ∷ 110 ∷ 100 ∷ 115 ∷ 104 ∷ 97 ∷ 107 ∷ 101 ∷ []
