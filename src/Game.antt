-- ===== src/Game.antt =====
-- The game service, internal/game.
pub mod Anchors
pub mod Registry
pub mod Interleaving
pub mod Service
pub mod Resolution
pub mod Fold
pub mod History
pub mod Views
pub mod Warm
pub mod Sidecar
pub mod Snapshot
mod Tests
