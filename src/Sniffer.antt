-- ===== src/Sniffer.antt =====
-- Terminal-Packet-Sniffer/func.c: how a captured packet is classified, filtered and stored.
pub mod Handler
pub mod Filter
pub mod Session
mod Tests
