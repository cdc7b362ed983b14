-- ===== src/Endpoint.antt =====
-- ndn/endpoint: consumers and producers on a logical face to the forwarder.
pub mod Consumer
pub mod Producer
pub mod Steps
pub mod Retx
pub mod Replies
