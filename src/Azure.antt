-- ===== src/Azure.antt =====
-- azure/blob_storage.go: a source and a sink over a blob storage client, whose calls are arguments
-- here.
pub mod Source
pub mod Sink
