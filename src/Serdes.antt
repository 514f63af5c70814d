-- ===== src/Serdes.antt =====
-- driver/rpc_serdes.cpp: between the messages of the protocol and what the driver knows of a device.
pub mod Basic
pub mod Endpoint
pub mod Config
pub mod Device
pub mod EnumLaws
pub mod EndpointLaws
pub mod ConfigLaws
pub mod DeviceLaws
pub mod Accept
pub mod Samples
mod Tests
