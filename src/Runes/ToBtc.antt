-- ===== src/Runes/ToBtc.antt =====
-- Rune tokens on their way back to Bitcoin (bridge_node/bridge/bridges/runes/service.py).
pub mod Send
pub mod Signer
pub mod Answer
pub mod Question
pub mod Handle
pub mod Once
pub mod Leaves
pub mod FeeRate
pub mod Single
pub mod Checked
