-- ===== src/Commands/ReferenceType.antt =====
-- src/jdwpy/commands/reference_type.py.
pub mod Identity
pub mod Members
pub mod Values
pub mod Related
pub mod Generic
pub mod ClassFile
