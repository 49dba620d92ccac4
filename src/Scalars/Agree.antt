-- ===== src/Scalars/Agree.antt =====
-- The three number parsers agree on what fits all of them.
