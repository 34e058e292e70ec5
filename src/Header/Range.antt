-- ===== src/Header/Range.antt =====
-- The byte range in a request header of module/az.c.
