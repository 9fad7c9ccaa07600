-- ===== src/Examples.antt =====
-- Tests of the definitions at concrete inputs, and the theorems at inputs that meet their
-- hypotheses.
mod RetryRuns
mod LockRuns
mod SystemRuns
mod StateRuns
mod EngineRuns
mod DeliveryRuns
mod RecoveryRuns
mod SystemDelivery
mod FailoverRuns
mod ReplicationRuns
mod SqlRuns
mod StreamRuns
mod CoordinatorRuns
mod ConfigRuns
mod ConnectionRuns
mod MetricsRuns
mod ServerRuns
