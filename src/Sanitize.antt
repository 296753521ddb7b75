-- ===== src/Sanitize.antt =====
-- server/internal/sanitize/sanitize.go
pub mod Unique
pub mod Redactor
pub mod Nodes
pub mod Patterns
pub mod Numbers
pub mod Outcomes
pub mod Process
pub mod Totality
