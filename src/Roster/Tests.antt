-- ===== src/Roster/Tests.antt =====
-- The roster on an id that it has.
