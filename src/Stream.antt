-- ===== src/Stream.antt =====
-- capture/processors/http/streaming.go: the parsers that take a streamed body apart into messages.
pub mod Scan
pub mod Sse
pub mod Grpc
pub mod Recorder
pub mod Relay
pub mod Transparent
pub mod Pumping
pub mod Detect
