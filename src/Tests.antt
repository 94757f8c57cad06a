-- ===== src/Tests.antt =====
-- Runs of the definitions on concrete inputs, and every theorem at one of them.
mod Packets
mod Handshakes
mod Queues
mod Parsers
mod Dispatchers
mod Datagrams
mod Connections
mod Arrivals
mod Links
mod Bindings
mod Accumulators
