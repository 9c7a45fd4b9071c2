-- ===== src/Consensus/Codes/Tests.antt =====
-- The code of a channel withdrawal.
