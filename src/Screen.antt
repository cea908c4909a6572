-- ===== src/Screen.antt =====
-- src/rootwire/output.py, `OutputToScreen`.
pub mod Format
pub mod Checksum
pub mod Render
pub mod Utf8
pub mod Block
pub mod Safe
pub mod Lines
mod Tests
