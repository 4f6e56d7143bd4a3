-- ===== src/Examples.antt =====
-- Concrete runs of the model, and the theorems at concrete inputs.
mod Models
mod Headers
mod Streams
mod Sends
mod Connections
mod Systems
mod Mains
