-- ===== src/Tests.antt =====
-- Concrete runs of the models: each theorem of the results at an input where its conditions hold.
mod HexDigits
mod Data
mod Cluster
mod MemoryRuns
mod BlockRuns
mod IndexRuns
mod ServiceRuns
mod AgentRuns
mod TransportRuns
mod ThreadRuns
mod SessionRuns
mod MainRuns
mod MetadataRuns
mod WatchRuns
