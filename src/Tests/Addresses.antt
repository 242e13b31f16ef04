-- ===== src/Tests/Addresses.antt =====
-- Deposit addresses, pending deposits, the fee estimator and the wallet's balance.
use nbte_bridge.Prelude.{
  ℕ, nat_eq, String, ◌≡◌, refl, ◌⊎◌, true, false, none, some, [], ◌∷◌, All, sum_by, ◌==◌, string_eq,
  if◌then◌else◌, arith,
}
use nbte_bridge.Prelude.Int.{◌*ℤ◌}
use nbte_bridge.Result.{Error, Result, ok, err, value_error, external, unindexed_output}
use nbte_bridge.Btc.Amounts.{to_satoshi}
use nbte_bridge.Btc.Types.{Utxo, from_rpc_response}
use nbte_bridge.Ord.Names.{rune_from_str, remove_spacers}
use nbte_bridge.Ord.Outputs.{get_rune_balance, get_normalized_rune_name}
use nbte_bridge.Btc.Fees.{
  Sources, MempoolSpaceFeeEstimator, get_fee_sats_per_vb, mempool_fee, fee_btc_per_kb, rpc_fee,
  get_fee_sats_per_vb_raises,
}
use nbte_bridge.Ord.Multisig.Inputs.{list_utxos}
use nbte_bridge.Ord.Multisig.Holdings.{
  OrdAnswers, IsIndexed, get_rune_balance_at_output, wallet_rune_balance, wallet_rune_balance_lem,
}
use nbte_bridge.Runes.Models.{User, IncomingBtcTx, IncomingBtcTxStatus}
use nbte_bridge.Runes.World.{Db}
use nbte_bridge.Runes.Addresses.{Lookup, generate_deposit_address}
use nbte_bridge.Runes.Addresses.Pending.{deposit_entry, get_pending_deposits_for_evm_address}
use nbte_bridge.Runes.Addresses.Same.{generate_deposit_address_twice}
use nbte_bridge.Runes.Addresses.Own.{IsOwn, get_pending_deposits_for_evm_address-IsOwn}
use nbte_bridge.Tests.Wallet.{desc, wallet, ord_output}
use nbte_bridge.Tests.Service.{db, world, config, deposit, rune_abc}

abbrev look : Lookup
look = record {
  to_checksum_address = λ a. ok a;
  derive_address = λ n. ok (if n == 2 then "second" else "other");
  get_block = λ h. ok (100, 840000);
}

given : (generate_deposit_address look 1 "new user" world).0 ≡ ok "second"
unfolding generate_deposit_address
given = refl

generate_deposit_address_twice_example :
    let after = (generate_deposit_address look 1 "new user" world).1 in
    generate_deposit_address look 1 "new user" after ≡ (ok "second", after)
generate_deposit_address_twice_example =
    generate_deposit_address_twice look 1 "new user" world "second" given

abbrev tx : IncomingBtcTx
tx = record {
  id = 1;
  bridge_id = 1;
  tx_id = "tx";
  vout = 0;
  block_number = some 840006;
  time = 120;
  address = "deposit address";
  amount_sat = 10000;
  user_id = some 1;
  status = IncomingBtcTxStatus.accepted;
}

abbrev with_tx : Db
with_tx = record db { incoming_btc_txs = tx ∷ []; next_btc_tx_id = 2 }

abbrev user : User
user = record { id = 1; bridge_id = 1; evm_address = "user" }

abbrev block_hash : String
block_hash = "0000000000000000000000000000000000000000000000000000000000000001"

abbrev get_block : ℕ → String → Result (ℕ × ℕ)
get_block n h = ok (100, 840000)

abbrev fees : Sources
fees = record {
  now = 100;
  later = 101;
  fastest_fee = err external;
  estimate_raw_fee = λ n. ok none;
  is_zero = λ d. false;
  ceil_sats = λ d. 4;
}

abbrev estimator : MempoolSpaceFeeEstimator
estimator = record {
  network = "mainnet";
  cache_ttl = 60;
  cached_fee_sats_per_vb = none;
  cache_time = 0;
}

raised : (get_fee_sats_per_vb fees estimator).0 ≡ err value_error
unfolding get_fee_sats_per_vb mempool_fee fee_btc_per_kb
raised = refl

get_fee_sats_per_vb_raises_example :
    (value_error ≡ value_error)
    × ((d : Error) × (rpc_fee fees "mainnet" ≡ err d))
    × ((estimator.network == "regtest" ≡ true) ⊎ ((d : Error) × (fees.fastest_fee ≡ err d)))
get_fee_sats_per_vb_raises_example = get_fee_sats_per_vb_raises fees estimator value_error raised

-- ord has not indexed an output when it is asked for the first time.
abbrev ask_ord : OrdAnswers
ask_ord txid vout n = if n == 0 then err unindexed_output else ok (ord_output txid vout)

abbrev utxo : String → ℕ → Utxo
utxo txid amount = record {
  txid = txid;
  vout = 0;
  confirmations = 6;
  amount_satoshi = amount;
  spendable = true;
  solvable = true;
  safe = true;
  desc = some desc;
  address = some "address";
  witness_script = some "script";
}

listed : list_utxos wallet ≡ ok (utxo "runes" 10000 ∷ utxo "plain" 50000 ∷ [])
unfolding list_utxos from_rpc_response to_satoshi ◌*ℤ◌
listed = refl

abbrev rune_balance : Utxo → ℕ
rune_balance u = if u.txid == "runes" then 100 else 0

indexed :
    (u : Utxo)
    → get_rune_balance_at_output wallet ask_ord u.txid u.vout "ABC" 1 ≡ ok (rune_balance u)
    → IsIndexed wallet ask_ord "ABC" rune_balance u
unfolding get_rune_balance_at_output
indexed u h = record {
  tries = 1;
  in_time = omega arith;
  unindexed = λ m lt. ground arith;
  indexed = h;
}

runes_balance : get_rune_balance_at_output wallet ask_ord "runes" 0 "ABC" 1 ≡ ok 100
unfolding get_rune_balance_at_output get_rune_balance get_normalized_rune_name rune_from_str
    remove_spacers
runes_balance = refl

plain_balance : get_rune_balance_at_output wallet ask_ord "plain" 0 "ABC" 1 ≡ ok 0
unfolding get_rune_balance_at_output get_rune_balance get_normalized_rune_name rune_from_str
    remove_spacers
plain_balance = refl

wallet_rune_balance_lem_example :
    wallet_rune_balance wallet ask_ord "ABC" true
    ≡ ok (sum_by rune_balance (utxo "runes" 10000 ∷ utxo "plain" 50000 ∷ []))
wallet_rune_balance_lem_example =
    wallet_rune_balance_lem wallet ask_ord "ABC" rune_balance
      (utxo "runes" 10000 ∷ utxo "plain" 50000 ∷ []) listed
      (indexed (utxo "runes" 10000) runes_balance, (indexed (utxo "plain" 50000) plain_balance, tt))

-- The entry of the deposit in the transaction.
pending :
    get_pending_deposits_for_evm_address config 1 get_block with_tx (λ a. ok a) "user" block_hash
    ≡ ok (deposit_entry deposit rune_abc ∷ [])
unfolding get_pending_deposits_for_evm_address
pending = refl

get_pending_deposits_for_evm_address-IsOwn_example :
    All (IsOwn 1 with_tx user) (deposit_entry deposit rune_abc ∷ [])
get_pending_deposits_for_evm_address-IsOwn_example =
    get_pending_deposits_for_evm_address-IsOwn 1 with_tx config get_block (λ a. ok a) "user"
      block_hash "user" user refl refl pending
