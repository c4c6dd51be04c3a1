-- ===== src/Messages.antt =====
-- src/Bubot_CoAP/messages: the options, the messages and their accessors.
pub mod Value
pub mod CoapOption
pub mod Message
pub mod Response
pub mod Request
pub mod Options
pub mod Accessors
pub mod Attributes
pub mod Payload
