-- ===== src/Network.antt =====
-- The network of nodes (bridge_node/bridge/common/p2p/network.py).
pub mod Values
pub mod Node
pub mod Ask
