-- ===== src/Match.antt =====
-- src/match.c: case folding, string comparison and wildcard matching.
pub mod Tables
pub mod Compare
pub mod Glob
pub mod Pattern
pub mod Sound
pub mod Ends
pub mod Budget
pub mod Complete
pub mod Collapse
mod Tests
