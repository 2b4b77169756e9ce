-- ===== src/Commands/EventRequest.antt =====
-- src/jdwpy/commands/event_request.py.
pub mod Filters
pub mod Scopes
pub mod Modifiers
pub mod Requests
