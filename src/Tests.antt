-- ===== src/Tests.antt =====
-- Concrete values, and the theorems applied to them.
pub mod Sample
mod PipelineTests
mod EventTests
mod GateTests
mod DaemonTests
mod ArtifactTests
mod RegistryTests
mod SecurityTests
mod ChannelTests
