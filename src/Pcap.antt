-- ===== src/Pcap.antt =====
-- src/rootwire/pcap.py: capture files, written and read.
pub mod Linktype
pub mod Writer
pub mod Replay
mod Tests
