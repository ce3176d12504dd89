-- ===== src/Print/Tests.antt =====
-- Printing 255 and -42.
