-- ===== src/Operator/Tests.antt =====
-- The operator at concrete clusters.
mod Sample
mod Runs
mod Witnesses
