-- ===== src/Redis.antt =====
-- redis/: sources and sinks over a Redis client, whose calls are arguments here.
pub mod PubSub
pub mod Stream
