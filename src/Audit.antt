-- ===== src/Audit.antt =====
-- app/workers/audit.py, with app/services/notifications.py: an audit evaluates the conversations that it
-- names, one transaction each, and ends with a summary, suggestions and notifications.
pub mod Counter
pub mod Suggestions
pub mod Notices
pub mod Review
pub mod Tables
pub mod Context
pub mod Conversation
pub mod Step
pub mod Plan
pub mod Run
mod Samples
mod Tests
