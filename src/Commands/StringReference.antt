-- ===== src/Commands/StringReference.antt =====
-- src/jdwpy/commands/string_reference.py.
pub mod Text
