-- ===== src/Commands/StackFrame.antt =====
-- src/jdwpy/commands/stack_frame.py.
pub mod Values
pub mod Frames
