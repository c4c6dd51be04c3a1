-- ===== src/Server.antt =====
-- src/Bubot_CoAP/server.py
pub mod Retransmission
pub mod Directory
pub mod Pipeline
pub mod Reception
pub mod Exchange
