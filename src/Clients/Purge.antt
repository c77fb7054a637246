-- ===== src/Clients/Purge.antt =====
-- A purge leaves nothing of a client.
