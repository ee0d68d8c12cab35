-- ===== src/Protocol.antt =====
-- stiebel_heatpump/protocol/
pub mod Frame
pub mod Number
pub mod Decode
pub mod Encode
pub mod Transport
pub mod Serial
pub mod Connector
pub mod Hex
