-- ===== src/Screen/Render.antt =====
-- src/rootwire/output.py, the renderers of OutputToScreen: what each prints, line by line.
pub mod Link
pub mod Network
pub mod Control
pub mod Transport
pub mod Application
