-- ===== src/Ord/Multisig.antt =====
-- The multisig wallet that holds the runes: coin selection and the transaction that sends runes
-- (`OrdMultisig.create_rune_psbt`, bridge_node/bridge/common/ord/multisig.py).
pub mod Parsing
pub mod Types
pub mod Plan
pub mod Inputs
pub mod Selection
pub mod Funding
pub mod Picked
pub mod Coverage
pub mod Balance
pub mod Spends
pub mod Sends
pub mod Holdings
pub mod Descriptors
