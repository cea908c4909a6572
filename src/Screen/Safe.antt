-- ===== src/Screen/Safe.antt =====
-- Whatever a frame holds, what is printed for it is safe for a terminal.
pub mod Parts
pub mod Link
pub mod Network
pub mod Control
pub mod Transport
pub mod Application
pub mod Frame
