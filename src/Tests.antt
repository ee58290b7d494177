-- ===== src/Tests.antt =====
-- Concrete data, and the theorems at concrete inputs.
mod Floats
mod Data
mod Fifo
mod Adaptive
mod Process
mod Layout
mod Daemon
mod Network
