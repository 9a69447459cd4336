-- ===== src/Server.antt =====
-- server.go and wallet_cache.go: the pages of a wallet.
pub mod Floats
pub mod Weeks
pub mod Chart
pub mod WalletCache
pub mod Network
pub mod Recent
pub mod Flows
pub mod Xirr
pub mod Returns
pub mod Shares
pub mod Address
pub mod Demo
pub mod Pages
pub mod Metrics
pub mod Site
mod Tests
