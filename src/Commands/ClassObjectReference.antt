-- ===== src/Commands/ClassObjectReference.antt =====
-- src/jdwpy/commands/class_object_reference.py.
pub mod Reflected
