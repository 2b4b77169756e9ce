-- ===== src/Commands/Method.antt =====
-- src/jdwpy/commands/method.py.
pub mod Lines
pub mod Variables
