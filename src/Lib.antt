-- ===== src/Lib.antt =====
-- Verification library of the NBTE bridge.
--
-- The bridge moves runes between Bitcoin and an EVM chain, and Taproot assets to and from RSK.
-- Federated nodes run the same service: it scans Bitcoin and the bridge contract for deposits, the
-- leader collects the signatures of the other nodes and sends transactions, and every node confirms
-- them. The parts and their files:
--
-- Btc: amounts and unspent outputs (bridge_node/bridge/common/btc/utils.py, types.py).
-- Ord: rune names (common/ord/types.py), outputs as ord sees them (common/ord/utxos.py), and
-- `OrdMultisig.create_rune_psbt` (common/ord/multisig.py), which builds the transaction that sends
-- runes: Ord/Multisig/Plan for outputs and edicts, Selection for the inputs with runes, Funding for
-- the fee, Inputs for one input, Parsing for the descriptor of an output
-- (common/btc/multisig_utils.py); Balance, Picked, Coverage, Spends and Sends prove what it does.
-- Evm: `get_events` in batches with retries (common/evm/utils.py) and `EvmEventScanner`
-- (common/evm/scanner.py), whose order of events Evm/Order states.
-- Runes: the service of bridges/runes/service.py. Models are the rows, World is the state: the
-- database with what was sent to the outside. ToEvm sends rune deposits to the EVM chain, Signing
-- checks the signatures for it, ToBtc sends runes back to Bitcoin (Answer is the federator's check,
-- Question the leader's question, Handle the whole), Scan finds deposits, Bridge is an iteration of
-- bridges/runes/bridge.py. The modules called Once, and Quiet, are about what is sent twice.
-- Runes/Addresses: deposit addresses and the list of a user's pending deposits.
-- TapRsk: the bridge between Taproot assets and RSK (bridges/tap_rsk). Models are the rows of
-- models.py and World is the state. RskToTap is rsk_to_tap.py, TapToRsk is tap_to_rsk.py, Deposits
-- with Deposits/Assets and Outpoints is tap_deposits.py, Scanner is rsk_scanner.py, and Bridge is
-- an iteration of bridge.py. Machine says what is promised of a batch, as steps of a machine;
-- Steps, Reads, Stores, Sends and Refines are about the steps that the methods take, Bridge/Safe
-- about iterations.
-- Main: the main loop over all bridges (main_bridge.py); Main/Safe puts the promises together.
-- Network: the values that the nodes exchange and the questions they ask (common/p2p/network.py).
-- Btc/Fees: the estimator of fees (common/btc/fees.py).
-- Ord/Multisig/Holdings and Descriptors, Runes/ToBtc/Send: the other methods of `OrdMultisig`.
-- Transactions (common/services/transactions.py) and KeyValues (common/services/key_value_store.py)
-- serve both bridges. Rows are tables with ids.
-- Prelude, Result, Proc, Decimals: numbers, lists, exceptions as values, methods that change a
-- state, exact decimals. Tests runs the definitions on small states.
--
-- The paths above are below bridge_node/bridge. A method of the service is a function from the
-- world to a result and the next world. An exception is a result too, and the world stands beside
-- it, since only the writes of the surrounding database transaction are taken back
-- (common/services/transactions.py), never what was sent. The status of a deposit says how often it
-- can have been sent: not at all until it leaves the accepted status, and once afterwards.
--
-- Bounds and fuel: the loop of `get_events` runs on fuel, two more than the blocks of the range,
-- and each batch takes at least one of them. `get_event_batch_with_retries` has its ten retries and
-- the poll of an output in ord its ten calls, or twenty where the wallet's balance is asked for.
-- All other loops go through lists. Amounts are natural numbers or integers without a bound, as in
-- Python. Decimals are exact, within the 80 digits of bridge_node/bridge/decimalcontext.py.
--
-- Other programs and libraries are fields of records: ord, bitcoind and the Bitcoin libraries in
-- Wallet, Signer, Listing and Keys, the contract, its node and the messenger in External,
-- EventSource and RskSource, the sources of fees in Sources, and the calls of other nodes in Peers.
-- What Python says of single characters is RuneNames and KeyParser. Each answer may be an exception. Two calls of one method see the same answers, except
-- that a repeated call for events and for an output is numbered.
--
-- Not modelled: the contracts, the front end, the web views, the clients of other programs, the
-- checksum of descriptors (from Bitcoin Core) and the connection of nodes (from Pyro), the wiring,
-- clocks and logging. A node that stops in the middle of a method is not modelled either; a method
-- either returns or raises.
pub mod Prelude
pub mod Result
pub mod Proc
pub mod Decimals
pub mod Btc
pub mod Ord
pub mod Evm
pub mod Rows
pub mod Transactions
pub mod KeyValues
pub mod Runes
pub mod Network
pub mod TapRsk
pub mod Main
pub mod Tests
