-- ===== src/Commands/ClassType.antt =====
-- src/jdwpy/commands/class_type.py.
pub mod Values
pub mod Invoke
