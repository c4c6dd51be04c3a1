-- ===== src/Tests.antt =====
-- Runs of the model and instances of the theorems at concrete inputs.
mod Samples
mod Examples
mod Layers
mod MessageLayer
mod Observing
mod Serving
mod Answering
mod Streams
mod Receiving
mod Resources
mod Exchange
