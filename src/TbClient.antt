-- ===== src/TbClient.antt =====
-- internal/tbclient/tbclient.go: account and transfer ids, the transfers that the game submits, and
-- the mapping of TigerBeetle's answers. The package github.com/tigerbeetle/tigerbeetle-go is a
-- parameter: `TbLib` for its pure conversions, `TbServer` for its client.
pub mod External
pub mod Ids
pub mod Transfers
pub mod Client
pub mod Batches
pub mod Sample
mod Tests
