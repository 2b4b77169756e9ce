-- ===== src/Commands/Registry/Table.antt =====
-- The registry after src/jdwpy/commands is imported, and what is found in it.
use jdwpy.Prelude.{
  All, All-append, All-map, Bool, Bool-cases, List, Option, [], arith, false, if◌then◌else◌, inl,
  inr, none, refl, some, sym, true, ◌++◌, ◌∙◌, ◌∷◌, ◌≡◌, ◌≢◌,
}
use jdwpy.Prelude.Int.{pos, ℤ}
use jdwpy.Spec.{IdSizesSpec}
use jdwpy.Io.{Platform}
use jdwpy.Commands.Base.{Decodes, RoundTrip-Decodes}
use jdwpy.Commands.Registry.Vm.{vm_classes, vm_classes-RoundTrips}
use jdwpy.Commands.Registry.ReferenceType.{
  reference_type_classes, reference_type_classes-RoundTrips,
}
use jdwpy.Commands.Registry.ClassType.{class_type_classes, class_type_classes-RoundTrips}
use jdwpy.Commands.Registry.ArrayType.{array_type_classes, array_type_classes-RoundTrips}
use jdwpy.Commands.Registry.InterfaceType.{
  interface_type_classes, interface_type_classes-RoundTrips,
}
use jdwpy.Commands.Registry.ClassObjectReference.{
  class_object_reference_classes, class_object_reference_classes-RoundTrips,
}
use jdwpy.Commands.Registry.StackFrame.{stack_frame_classes, stack_frame_classes-RoundTrips}
use jdwpy.Commands.Registry.Method.{method_classes, method_classes-RoundTrips}
use jdwpy.Commands.Registry.ObjectReference.{
  object_reference_classes, object_reference_classes-RoundTrips,
}
use jdwpy.Commands.Registry.StringReference.{
  string_reference_classes, string_reference_classes-RoundTrips,
}
use jdwpy.Commands.Registry.ThreadReference.{
  thread_reference_classes, thread_reference_classes-RoundTrips,
}
use jdwpy.Commands.Registry.ThreadGroupReference.{
  thread_group_reference_classes, thread_group_reference_classes-RoundTrips,
}
use jdwpy.Commands.Registry.ArrayReference.{
  array_reference_classes, array_reference_classes-RoundTrips,
}
use jdwpy.Commands.Registry.ClassLoaderReference.{
  class_loader_reference_classes, class_loader_reference_classes-RoundTrips,
}
use jdwpy.Commands.Registry.EventRequest.{event_request_classes, event_request_classes-RoundTrips}
use jdwpy.Commands.Registry.Event.{event_classes, event_classes-RoundTrips}
use jdwpy.Commands.Registry.{
  CommandClass, ResponseClass, ResponseRoundTrips, RoundTrips, has_key, lookup_class,
}
use mathlib.Core.Path.{subst}

-- One list after another.
abbrev flatten : List (List CommandClass) → List CommandClass
flatten [] = []
flatten (cs ∷ rest) = cs ++ flatten rest

All-flatten :
    (P : CommandClass → Type 0) (css : List (List CommandClass))
    → All (All P) css
    → All P (flatten css)
All-flatten P [] h = tt
All-flatten P (cs ∷ rest) h = All-append P cs (flatten rest) h.0 (All-flatten P rest h.1)

-- The classes in the order in which src/jdwpy/commands/__init__.py imports their modules.
abbrev modules : List (List CommandClass)
modules =
    vm_classes ∷ reference_type_classes ∷ class_type_classes ∷ array_type_classes
    ∷ interface_type_classes ∷ class_object_reference_classes ∷ stack_frame_classes ∷ method_classes
    ∷ object_reference_classes ∷ string_reference_classes ∷ thread_reference_classes
    ∷ thread_group_reference_classes ∷ array_reference_classes ∷ class_loader_reference_classes
    ∷ event_request_classes ∷ event_classes ∷ []

abbrev pub registered_classes : List CommandClass
registered_classes = flatten modules

registered_classes-RoundTrips : All RoundTrips registered_classes
registered_classes-RoundTrips = All-flatten RoundTrips modules (
  vm_classes-RoundTrips,
  (
    reference_type_classes-RoundTrips,
    (
      class_type_classes-RoundTrips,
      (
        array_type_classes-RoundTrips,
        (
          interface_type_classes-RoundTrips,
          (
            class_object_reference_classes-RoundTrips,
            (
              stack_frame_classes-RoundTrips,
              (
                method_classes-RoundTrips,
                (
                  object_reference_classes-RoundTrips,
                  (
                    string_reference_classes-RoundTrips,
                    (
                      thread_reference_classes-RoundTrips,
                      (
                        thread_group_reference_classes-RoundTrips,
                        (
                          array_reference_classes-RoundTrips,
                          (
                            class_loader_reference_classes-RoundTrips,
                            (event_request_classes-RoundTrips, (event_classes-RoundTrips, tt)),
                          ),
                        ),
                      ),
                    ),
                  ),
                ),
              ),
            ),
          ),
        ),
      ),
    ),
  ),
)

-- `get_command_class`
unfoldable pub get_command_class : ℤ → ℤ → Option CommandClass
get_command_class set command = lookup_class registered_classes set command

-- What was found, if anything, meets P and has the key.
abbrev FoundHas : (CommandClass → Type 0) → ℤ → ℤ → Option CommandClass → Type 0
FoundHas P set command none = Unit {0}
FoundHas P set command (some c) = P c × (has_key set command c ≡ true)

FoundHas-or_else :
    (P : CommandClass → Type 0) (set command : ℤ) (d : CommandClass) (later : Option CommandClass)
    (b : Bool)
    → P d
    → has_key set command d ≡ b
    → FoundHas P set command later
    → FoundHas P set command (elim later [ some c ↦ some c | none ↦ if b then some d else none ])
FoundHas-or_else P set command d (some c) b here key h = h
FoundHas-or_else P set command d none true here key h = (here, key)
FoundHas-or_else P set command d none false here key h = tt

lookup_class-FoundHas :
    (P : CommandClass → Type 0) (classes : List CommandClass) (set command : ℤ)
    → All P classes
    → FoundHas P set command (lookup_class classes set command)
unfolding lookup_class
lookup_class-FoundHas P [] set command all = tt
lookup_class-FoundHas P (d ∷ rest) set command all =
    FoundHas-or_else P set command d (lookup_class rest set command) (has_key set command d) all.0
      refl (lookup_class-FoundHas P rest set command all.1)

has_key→eq :
    (set command : ℤ) (c : CommandClass)
    → has_key set command c ≡ true
    → (set ≡ pos c.command_set) × (command ≡ pos c.command)
has_key→eq set command c h = ground arith

get_command_class-FoundHas :
    (set command : ℤ) (c : CommandClass)
    → get_command_class set command ≡ some c
    → RoundTrips c × (has_key set command c ≡ true)
unfolding get_command_class
get_command_class-FoundHas set command c h =
    subst (FoundHas RoundTrips set command) h (
      lookup_class-FoundHas RoundTrips registered_classes set command registered_classes-RoundTrips)

-- Whatever class but ArrayReference.SetValues a command set and a command number find in the registry, it
-- has these numbers, and the bytes of every command of the class that meets the class's `IsWritable` exist
-- and are read as the command, also where more bytes follow. `IsWritable` asks that integers, bytes and
-- identifiers are in the ranges of their formats, that strings are of scalar values and an int can count
-- their bytes and every list, and that FLOAT values are singles and no NaN.
pub get_command_class-Decodes :
    (set command : ℤ) (c : CommandClass) (p : Platform) (s : IdSizesSpec) (v : c.Instance)
    → get_command_class set command ≡ some c
    → (set ≡ pos 13 → command ≢ pos 3)
    → c.IsWritable p s v
    → Decodes p s (c.serialize v) c.deserialize v
      × (set ≡ pos c.command_set)
      × (command ≡ pos c.command)
get_command_class-Decodes set command c p s v h other w =
    let (comes_back, key) = get_command_class-FoundHas set command c h in
    let (same_set, same_command) = has_key→eq set command c key in
    elim (Bool-cases (has_key (pos 13) (pos 3) c)) [
      | inl values ↦
          let (a, b) = has_key→eq (pos 13) (pos 3) c values in
          absurd (other (same_set ∙ sym a) (same_command ∙ sym b))
      | inr rest ↦ (RoundTrip-Decodes (comes_back.0 rest p s v w), same_set, same_command)
    ]

-- The bytes of every reply that meets its class's `IsWritable`, to a command whose class is found in the
-- registry, exist and are read as the reply, also where more bytes follow. `IsWritable` asks the same as of
-- commands, and of an array region that its elements have its tag or, in one of objects, tags of their own.
pub get_response_class-Decodes :
    (set command : ℤ) (c : CommandClass) (r : ResponseClass) (p : Platform) (s : IdSizesSpec)
    (v : r.Instance)
    → get_command_class set command ≡ some c
    → c.response ≡ some r
    → r.IsWritable p s v
    → Decodes p s (r.serialize v) r.deserialize v
get_response_class-Decodes set command c r p s v h e w =
    let (comes_back, _) = get_command_class-FoundHas set command c h in
    RoundTrip-Decodes (subst ResponseRoundTrips e comes_back.1 p s v w)

-- No class of the list has the numbers of the class.
abbrev no_key : CommandClass → List CommandClass → Bool
no_key c [] = true
no_key c (d ∷ rest) = if has_key (pos c.command_set) (pos c.command) d then false else no_key c rest

abbrev distinct_keys : List CommandClass → Bool
distinct_keys [] = true
distinct_keys (c ∷ rest) = if no_key c rest then distinct_keys rest else false

-- The class is found in the list by its numbers.
abbrev IsFoundIn : List CommandClass → CommandClass → Type 1
IsFoundIn cs c = lookup_class cs (pos c.command_set) (pos c.command) ≡ some c

lookup_class-no_key :
    (c : CommandClass) (rest : List CommandClass)
    → no_key c rest ≡ true
    → lookup_class rest (pos c.command_set) (pos c.command) ≡ none
unfolding lookup_class
lookup_class-no_key c [] h = refl
lookup_class-no_key c (d ∷ rest) h =
    elim (Bool-cases (has_key (pos c.command_set) (pos c.command) d)) [
      | inl same ↦ absurd (cc (rw same at h))
      | inr other ↦ rw (lookup_class-no_key c rest (rw other at h), other) refl
    ]

has_key_self : (c : CommandClass) → has_key (pos c.command_set) (pos c.command) c ≡ true
has_key_self c = ground arith

distinct_keys-IsFoundIn : (cs : List CommandClass) → distinct_keys cs ≡ true → All (IsFoundIn cs) cs
unfolding lookup_class
distinct_keys-IsFoundIn [] h = tt
distinct_keys-IsFoundIn (c ∷ rest) h = elim (Bool-cases (no_key c rest)) [
  | inl alone ↦ (
    rw (lookup_class-no_key c rest alone, has_key_self c) refl,
    All-map (IsFoundIn rest) (IsFoundIn (c ∷ rest)) rest (λ d e. rw e refl)
        (distinct_keys-IsFoundIn rest (rw alone at h)),
  )
  | inr taken ↦ absurd (cc (rw taken at h))
]

-- No class of the registry took the place of another: each is found by its own numbers.
pub get_command_class-registered :
    All (λ c. get_command_class (pos c.command_set) (pos c.command) ≡ some c) registered_classes
unfolding get_command_class
get_command_class-registered = distinct_keys-IsFoundIn registered_classes refl
