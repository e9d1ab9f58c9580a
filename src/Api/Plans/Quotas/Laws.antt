-- ===== src/Api/Plans/Quotas/Laws.antt =====
-- On the default resources of containers in hostingplans.go.
