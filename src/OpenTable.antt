-- ===== src/OpenTable.antt =====
-- The open-addressing tables of internal/engine (backchain_demand_support_table.go and the bucket
-- tables of rete_graph_token_bucket_table.go).
mod Slots
mod Wheel
pub mod Probe
mod ProbeLaws
mod InsertLaws
pub mod Capacity
pub mod Table
mod Layout
mod LayoutOps
pub mod Invariant
mod Reads
mod Place
mod Refill
mod Rehash
mod Clear
pub mod Runs
pub mod Hash
pub mod DemandSupport
pub mod DemandFact
pub mod TokenIdentity
pub mod FactToken
mod Reserve
mod Tests
