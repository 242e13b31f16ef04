-- ===== src/Runes/Addresses.antt =====
-- Deposit addresses and the deposits that a user sees
-- (bridge_node/bridge/bridges/runes/service.py). `to_checksum_address` is eth_utils', and the address
-- of an index is the wallet's.
pub mod Same
pub mod Pending
pub mod Own
use nbte_bridge.Prelude.{
  ℕ, suc, ◌+◌, String, Bool, true, false, not, Option, none, some, List, [], ◌∷◌, ◌++◌, map, any,
  keep, sort_by, leb, ltb, length, ◌==◌, ◌&&◌, nat_eq, string_eq, if◌then◌else◌,
}
use nbte_bridge.Prelude.Int.{ℤ, pos, ◌-ℤ◌}
use nbte_bridge.Result.{
  Error, Result, ok, err, value_error, lookup_error, external, first, one, one_or_none, or_raise,
  raise_if,
}
use nbte_bridge.Proc.{pure, lift, gets, asks, ◌>>=◌, ◌>>◌}
use nbte_bridge.Decimals.{Decimal, div_ten_pow, of_int}
use nbte_bridge.Rows.{find_id}
use nbte_bridge.Runes.Models.{
  User, DepositAddress, IncomingBtcTx, IncomingBtcTxStatus, Rune, RuneDeposit, is_tx_detected,
  get_status_for_ui,
}
use nbte_bridge.Runes.World.{Db, Service, transaction, change}

-- `eth_utils.to_checksum_address`, `OrdMultisig.derive_address`, and bitcoind's `getblock`: the time
-- and the height of a block.
pub record Lookup : Type 0 where
  pub to_checksum_address : String → Result String
  pub derive_address : ℕ → Result String
  pub get_block : String → Result (ℕ × ℕ)

abbrev pub users_at : ℕ → String → Db → List User
users_at bridge_id evm_address db =
    keep (λ u. (u.bridge_id == bridge_id) && (u.evm_address == evm_address)) db.users

-- `user.deposit_address`
abbrev pub address_of : ℕ → Db → Option DepositAddress
address_of user_id db = first (keep (λ a. a.user_id == user_id) db.deposit_addresses)

abbrev pub add_user : ℕ → String → Service User
add_user bridge_id evm_address = do
  id ← gets λ w. w.db.next_user_id
  let user : User = record { id = id; bridge_id = bridge_id; evm_address = evm_address }
  change λ db. record db { users = db.users ++ user ∷ []; next_user_id = suc db.next_user_id }
  pure user

-- The column `btc_address` is unique.
abbrev pub is_address_stored : String → Db → Bool
is_address_stored btc_address db =
    any (λ (a : DepositAddress). a.btc_address == btc_address) db.deposit_addresses

abbrev pub or_value_error : Result String → Result String
or_value_error (ok s) = ok s
or_value_error (err e) = err value_error

module _ (look : Lookup) (bridge_id : ℕ) where
  abbrev pub get_or_add_user : String → Option User → Service User
  get_or_add_user evm_address (some user) = pure user
  get_or_add_user evm_address none = add_user bridge_id evm_address

  abbrev pub get_or_add_address : User → Option DepositAddress → Service String
  get_or_add_address user (some address) = pure address.btc_address
  get_or_add_address user none = do
    btc_address ← lift (look.derive_address user.id)
    stored ← gets λ w. is_address_stored btc_address w.db
    lift (raise_if stored external)
    change λ db. record db {
      deposit_addresses =
          db.deposit_addresses ++ record { user_id = user.id; btc_address = btc_address } ∷ [];
    }
    pure btc_address

  abbrev pub address_of_user : User → Service String
  address_of_user user = do
    address ← gets λ w. address_of user.id w.db
    get_or_add_address user address

  abbrev pub address_for : String → Service String
  address_for evm_address = do
    found ← gets λ w. first (users_at bridge_id evm_address w.db)
    user ← get_or_add_user evm_address found
    address_of_user user

  -- `generate_deposit_address`
  unfoldable pub generate_deposit_address : String → Service String
  generate_deposit_address evm_address = do
    checksum ← lift (or_value_error (look.to_checksum_address evm_address))
    address_for checksum

  -- `get_user_by_deposit_address`; the foreign key to the user is never null.
  abbrev pub is_of_bridge : Db → DepositAddress → Bool
  is_of_bridge db address = elim (find_id (λ (u : User). u.id) address.user_id db.users) [
    | none ↦ false
    | some user ↦ user.bridge_id == bridge_id
  ]

  abbrev pub user_of_address : Option DepositAddress → Service (Option User)
  user_of_address none = pure none
  user_of_address (some address) = do
    user ← asks λ w. or_raise (find_id (λ (u : User). u.id) address.user_id w.db.users) lookup_error
    pure (some user)

  unfoldable pub get_user_by_deposit_address : String → Service (Option User)
  get_user_by_deposit_address deposit_address = transaction do
    obj ← asks λ w. one_or_none (
        keep (λ a. is_of_bridge w.db a && (a.btc_address == deposit_address))
          w.db.deposit_addresses)
    user_of_address obj
