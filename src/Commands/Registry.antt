-- ===== src/Commands/Registry.antt =====
-- src/jdwpy/commands/registry.py: the classes of commands and replies, by command set and command.
pub mod Vm
pub mod ReferenceType
pub mod ClassType
pub mod ArrayType
pub mod InterfaceType
pub mod ClassObjectReference
pub mod StackFrame
pub mod Method
pub mod ObjectReference
pub mod StringReference
pub mod ThreadReference
pub mod ThreadGroupReference
pub mod ArrayReference
pub mod ClassLoaderReference
pub mod EventRequest
pub mod Event
pub mod Table
use jdwpy.Prelude.{Bool, List, Option, [], false, if◌then◌else◌, none, some, ℕ, ◌&&◌, ◌∷◌, ◌≡◌}
use jdwpy.Prelude.Int.{pos, ℤ, ◌==ℤ◌}
use jdwpy.Constants.ErrorCode.{JdwpErrorCode}
use jdwpy.Spec.{IdSizesSpec}
use jdwpy.Io.{Platform, Read, Write}
use jdwpy.Io.Codec.{RoundTrip}

-- A class of replies: its instances, their writer and reader, and the instances whose fields fit
-- their formats.
pub record ResponseClass : Type 1 where
  pub Instance : Type 0
  pub serialize : Instance → Write
  pub deserialize : Read Instance
  pub IsWritable : Platform → IdSizesSpec → Instance → Type 0

-- A class of commands, with the class of its replies where `register_command` was given one.
pub record CommandClass : Type 1 where
  pub command_set : ℕ
  pub command : ℕ
  pub allowed_errors : List JdwpErrorCode
  pub Instance : Type 0
  pub serialize : Instance → Write
  pub deserialize : Read Instance
  pub IsWritable : Platform → IdSizesSpec → Instance → Type 0
  pub response : Option ResponseClass

abbrev pub ResponseRoundTrips : Option ResponseClass → Type 0
ResponseRoundTrips none = Unit {0}
ResponseRoundTrips (some c) =
    (p : Platform) (s : IdSizesSpec) (v : c.Instance)
    → c.IsWritable p s v
    → RoundTrip p s (c.serialize v) c.deserialize v

abbrev pub has_key : ℤ → ℤ → CommandClass → Bool
has_key set command c = set ==ℤ pos c.command_set && command ==ℤ pos c.command

-- Every writable command of the class, but for ArrayReference.SetValues, and every writable reply to it
-- comes back.
abbrev pub RoundTrips : CommandClass → Type 0
RoundTrips c =
    (has_key (pos 13) (pos 3) c ≡ false
      → (p : Platform) (s : IdSizesSpec) (v : c.Instance) → c.IsWritable p s v
      → RoundTrip p s (c.serialize v) c.deserialize v)
    × ResponseRoundTrips c.response

-- `_COMMAND_REGISTRY.get((command_set, command))`, over the classes in the order of registration: a
-- class registered later takes the place of an earlier one with its key.
unfoldable pub lookup_class : List CommandClass → ℤ → ℤ → Option CommandClass
lookup_class [] set command = none
lookup_class (c ∷ rest) set command = elim (lookup_class rest set command) [
  | some d ↦ some d
  | none ↦ if has_key set command c then some c else none
]
