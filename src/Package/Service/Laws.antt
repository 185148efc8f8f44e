-- ===== src/Package/Service/Laws.antt =====
-- What a reconciliation of a Package records.
