-- ===== src/Redis.antt =====
-- pkg/redis/client.go: the replication commands and the parser of INFO replication.
pub mod Info
pub mod Client
