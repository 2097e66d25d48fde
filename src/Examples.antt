-- ===== src/Examples.antt =====
-- Concrete inputs: tests of the definitions, and the theorems at inputs that meet their hypotheses.
mod CostRuns
mod QuotaRuns
mod CoordRuns
mod RelayRuns
mod RequestRuns
mod SelectorRuns
mod StreamRuns
mod StatementRuns
mod AccountRuns
mod HealthRuns
