-- ===== src/Commands/ThreadGroupReference.antt =====
-- src/jdwpy/commands/thread_group_reference.py.
pub mod Groups
