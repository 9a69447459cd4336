-- ===== src/Server/Tests.antt =====
-- server.go, wallet_cache.go: runs of the pages' parts.
mod Scaled
mod Calendar
mod Cache
mod Rows
mod Rates
mod Pages
mod Site
mod Home
