-- ===== src/Solana.antt =====
-- solana_client.go: the RPC client of the Solana network.
pub mod Types
pub mod Wire
pub mod Rpc
pub mod Convert
pub mod Number
pub mod Replies
pub mod Calls
pub mod Batch
pub mod Client
pub mod Epochs
pub mod Events
pub mod Prices
pub mod Names
mod Tests
