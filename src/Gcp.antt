-- ===== src/Gcp.antt =====
-- gcp/storage.go: a source and a sink over a storage client, whose calls are arguments here.
pub mod Source
pub mod Sink
