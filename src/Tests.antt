-- ===== src/Tests.antt =====
-- The theorems at concrete inputs, on a small platform that meets the laws.
mod Coder
mod Store
mod Toy
mod Examples
mod Chains
mod Payments
mod WalletFiles
mod Commands
mod Reindexing
mod Nodes
mod CommandLine
mod Ledgers
mod Joining
