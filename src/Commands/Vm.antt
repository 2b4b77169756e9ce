-- ===== src/Commands/Vm.antt =====
-- src/jdwpy/commands/vm.py.
pub mod Info
pub mod Classes
pub mod Generic
pub mod Threads
pub mod Lifecycle
pub mod Objects
pub mod Capabilities
pub mod CapabilitiesNew
