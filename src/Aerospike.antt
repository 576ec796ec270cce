-- ===== src/Aerospike.antt =====
-- aerospike/aerospike.go: a polling source and a sink over a database client, whose calls are
-- arguments here.
pub mod Polling
pub mod Sink
