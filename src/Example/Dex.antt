-- ===== src/Example/Dex.antt =====
-- example/dex/app.go: an order-book exchange that implements every optional interface but the
-- mempool observer.
pub mod State
pub mod Execute
pub mod Transactions
pub mod Chain
pub mod Oracle
pub mod Proposals
pub mod Snapshots
pub mod App
pub mod Ledger
pub mod Effects
pub mod Determinism
pub mod Serving
pub mod Blocks
pub mod Accounts
