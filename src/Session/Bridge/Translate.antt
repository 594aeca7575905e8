-- ===== src/Session/Bridge/Translate.antt =====
-- A transcript translated to a request and back.
