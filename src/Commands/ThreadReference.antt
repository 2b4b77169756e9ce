-- ===== src/Commands/ThreadReference.antt =====
-- src/jdwpy/commands/thread_reference.py.
pub mod Control
pub mod Frames
pub mod Monitors
pub mod Stopping
