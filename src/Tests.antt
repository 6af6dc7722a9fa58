-- ===== src/Tests.antt =====
-- Concrete runs, and the theorems at concrete inputs, by component.
mod MessageRuns
mod SessionRuns
mod BreakerRuns
mod QueueRuns
mod ShutdownRuns
mod CacheRuns
mod BalancerRuns
mod PoolRuns
mod LimiterRuns
mod ClientRuns
mod ServerRuns
mod IntegrationRuns
mod EndToEndRuns
