-- ===== src/Commands/InterfaceType.antt =====
-- src/jdwpy/commands/interface_type.py.
pub mod Invoke
