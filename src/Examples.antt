-- ===== src/Examples.antt =====
-- Runs at concrete inputs: each theorem with a hypothesis or a parameter is applied once.
mod Cursors
mod Addresses
mod Chunks
mod Queue
mod Buffers
mod Pages
mod Live
mod Ledger
mod Feeds
mod Provider
mod Probes
mod Ops
