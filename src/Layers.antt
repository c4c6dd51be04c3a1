-- ===== src/Layers.antt =====
-- src/Bubot_CoAP/layers
pub mod Keys
pub mod Table
pub mod Block
pub mod MessageLayer
pub mod ObserveLayer
pub mod CallbackLayer
pub mod RequestLayer
pub mod ResourceLayer
