-- ===== src/Counters/Examples.antt =====
-- The addition at a concrete table.
