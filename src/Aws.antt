-- ===== src/Aws.antt =====
-- aws/s3.go: a source and a sink over an S3 client, whose calls are arguments here.
pub mod S3Source
pub mod S3Sink
