-- ===== src/Commands/ObjectReference.antt =====
-- src/jdwpy/commands/object_reference.py.
pub mod Values
pub mod Invoke
pub mod Collection
