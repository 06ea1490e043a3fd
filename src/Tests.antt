-- ===== src/Tests.antt =====
-- A search that meets the interface of `memmem`, runs of the model, and the theorems at concrete
-- inputs.
mod Search
mod FairPermits
mod Libraries
mod ProxyRuns
pub mod AdminRuns
mod ExchangeRuns
mod Parsers
mod ConfigRuns
mod LiteralRuns
mod MigMetaRuns
mod PipelineRuns
mod PolicyRuns
