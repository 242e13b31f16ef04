-- ===== src/Runes/Scan.antt =====
-- The scans for deposits (`scan_rune_deposits` and `scan_rune_token_deposits` of
-- bridge_node/bridge/bridges/runes/service.py).
pub mod Listed
pub mod Deposits
pub mod Store
pub mod Tokens
pub mod Once
pub mod TokensOnce
