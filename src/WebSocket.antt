-- ===== src/WebSocket.antt =====
-- capture/processors/http/websocket: frames on the wire (frame.go) and the record of a session
-- (pipeline.go).
pub mod Frame
pub mod RoundTrip
pub mod Session
pub mod Announced
