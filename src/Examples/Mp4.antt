-- ===== src/Examples/Mp4.antt =====
-- The search for an atom, on concrete inputs.
