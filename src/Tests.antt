-- ===== src/Tests.antt =====
-- Runs of the definitions, and the theorems at concrete data.
mod Worlds
mod FindingRuns
mod EventRuns
mod ArgRuns
mod AnalyzerRuns
mod ProcessRuns
mod ChildRuns
mod SourceRuns
mod SarifRuns
mod MainRuns
