-- ===== src/Extension.antt =====
-- extension/: the standard connectors, their options and the draining of a channel.
pub mod Options
pub mod Message
pub mod WriterSink
pub mod FileSink
pub mod FileSource
pub mod ReaderSource
pub mod Chans
pub mod Consoles
