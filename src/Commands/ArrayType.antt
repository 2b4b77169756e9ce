-- ===== src/Commands/ArrayType.antt =====
-- src/jdwpy/commands/array_type.py.
pub mod Create
