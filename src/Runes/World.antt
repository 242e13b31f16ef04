-- ===== src/Runes/World.antt =====
-- The state of the rune bridge service: its database, and what it has sent to the outside.
-- A table is the list of its rows with the next value of its id sequence; a row that the service
-- changes is found by its id.
use nbte_bridge.Prelude.{refl, ℕ, String, List}
use nbte_bridge.Proc.{Proc, ◌>>◌}
use nbte_bridge.Transactions
use nbte_bridge.KeyValues.{Value, KeyValueTable}
unfoldable pub use nbte_bridge.Transactions.{transaction}
pub use nbte_bridge.Transactions.{
  settle, change, emit, after_try, try_except_else, Post-transaction,
}
use nbte_bridge.Runes.Models.{
  User, DepositAddress, IncomingBtcTx, Rune, RuneDeposit, RuneTokenDeposit,
}
use nbte_bridge.Runes.External.{Notice, AcceptTransfer, External}

pub record Db : Type 0 where
  pub users : List User
  pub next_user_id : ℕ
  pub deposit_addresses : List DepositAddress
  pub incoming_btc_txs : List IncomingBtcTx
  pub next_btc_tx_id : ℕ
  pub runes : List Rune
  pub next_rune_id : ℕ
  pub rune_deposits : List RuneDeposit
  pub next_deposit_id : ℕ
  pub token_deposits : List RuneTokenDeposit
  pub next_token_deposit_id : ℕ
  pub key_values : List (String × Value)

-- The key-value table of this database.
instance abbrev pub rune_bridge_table : KeyValueTable Db
rune_bridge_table = record {
  pairs = λ db. db.key_values;
  with_pairs = λ pairs db. record db { key_values = pairs };
  pairs_with = λ pairs db. refl;
}

-- `submitted` is a transaction that the EVM node took, for a rune deposit; `broadcast` is one that
-- bitcoind took, for a rune token deposit.
pub data Effect : Type 0 where
  submitted : ℕ → AcceptTransfer → Effect
  broadcast : ℕ → String → Effect
  notified : Notice → Effect

-- The newest effect stands first.
abbrev pub World : Type 0
World = Transactions.World Db Effect

abbrev pub Service : Type 0 → Type 0
Service A = Proc World A

-- `self._messenger.send_message(...)`
abbrev pub notify : External → Notice → Service (Unit {0})
notify ext n = do emit (notified n); λ w. (ext.send_message n, w)
