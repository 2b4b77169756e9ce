-- ===== src/Commands/Event.antt =====
-- src/jdwpy/commands/event.py.
pub mod Steps
pub mod Monitors
pub mod Machine
pub mod Fields
pub mod Events
pub mod Composite
