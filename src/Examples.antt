-- ===== src/Examples.antt =====
-- The theorems at concrete inputs, and runs of the definitions.
pub mod Platforms
pub mod Starts
pub mod Swarms
pub mod Losses
pub mod Sizes
pub mod Deliveries
pub mod Pieces
pub mod Torrents
pub mod Peers
pub mod Clients
pub mod Texts
pub mod Loads
pub mod Trackers
