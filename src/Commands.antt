-- ===== src/Commands.antt =====
-- src/jdwpy/commands: the payloads of the commands and of their replies. Each class of the source is a
-- type with a writer, a reader, and the conditions under which it can be written.
pub mod Base
pub mod Members
pub mod Payloads
pub mod Vm
pub mod ReferenceType
pub mod ClassType
pub mod ArrayType
pub mod InterfaceType
pub mod ClassObjectReference
pub mod StackFrame
pub mod Method
pub mod ObjectReference
pub mod StringReference
pub mod ThreadReference
pub mod ThreadGroupReference
pub mod ArrayReference
pub mod ClassLoaderReference
pub mod EventRequest
pub mod Event
pub mod Registry
