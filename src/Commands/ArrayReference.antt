-- ===== src/Commands/ArrayReference.antt =====
-- src/jdwpy/commands/array_reference.py.
pub mod Region
pub mod SetValues
pub mod ElementTag
pub mod Length
