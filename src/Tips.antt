-- ===== src/Tips.antt =====
-- jito_tips.go: the collection of Jito tips.
pub mod Client
pub mod Transaction
pub mod Select
pub mod Collect
pub mod Intervals
mod Tests
