-- ===== src/Wire.antt =====
-- The wire formats of distributed/control_plane/proto_bridge.py and distributed/comm/serialization.py.
pub mod Bytes
pub mod MsgType
pub mod Frame
pub mod Envelope
pub mod RoundTrip
mod Tests
