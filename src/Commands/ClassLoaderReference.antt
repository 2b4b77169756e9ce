-- ===== src/Commands/ClassLoaderReference.antt =====
-- src/jdwpy/commands/class_loader_reference.py.
pub mod Visible
