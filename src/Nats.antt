-- ===== src/Nats.antt =====
-- nats/: sources and sinks over the NATS client libraries, whose calls are arguments here.
pub mod JetStream
pub mod Streaming
