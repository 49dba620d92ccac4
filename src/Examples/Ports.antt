-- ===== src/Examples/Ports.antt =====
-- A port in a configuration.
