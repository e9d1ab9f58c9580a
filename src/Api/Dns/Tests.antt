-- ===== src/Api/Dns/Tests.antt =====
-- Runs of dns.go against a small server, and the theorems at those inputs.
mod Sample
mod Names
mod Handlers
