-- ===== src/ControlPlane.antt =====
-- distributed/control_plane: the registry of devices and the relay gateway.
pub mod Types
pub mod Manifest
pub mod Service
pub mod Containers
pub mod Registry
pub mod Refinement
pub mod Refreshed
pub mod Protocol
pub mod Routing
mod Tests
