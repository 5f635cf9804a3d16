-- ===== src/Tests.antt =====
-- The theorems at concrete inputs.
mod Streams
mod Servers
mod Packets
mod Tables
mod Demos
mod Runs
mod Echoes
