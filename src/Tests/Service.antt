-- ===== src/Tests/Service.antt =====
-- A rune deposit with its signatures and a rune token deposit, both accepted, and answers to
-- everything that the service asks.
use nbte_bridge.Prelude.{String, false, true, none, some, List, [], ◌∷◌}
use nbte_bridge.Prelude.Int.{pos}
use nbte_bridge.Result.{Result, ok}
use nbte_bridge.Runes.Models.{
  Rune, RuneDeposit, RuneDepositStatus, RuneTokenDeposit, RuneTokenDepositStatus,
}
use nbte_bridge.Runes.External.{External, RuneBridgeServiceConfig, RuneEntry}
use nbte_bridge.Runes.Messages.{
  SignRuneTokenToBtcTransferQuestion, SignRuneTokenToBtcTransferAnswer,
}
use nbte_bridge.Runes.World.{Db, World}
use nbte_bridge.Runes.ToBtc.Signer.{Signer}
use nbte_bridge.Runes.Scan.Listed.{Listing, ListedOutput, ListedTx}
use nbte_bridge.Tests.Wallet.{wallet, psbt, rune_names}

abbrev pub deposit : RuneDeposit
deposit = record {
  id = 1;
  bridge_id = 1;
  tx_id = "tx";
  vout = 0;
  block_number = some 840000;
  rune_number = 731;
  rune_id = 1;
  user_id = 1;
  incoming_btc_tx_id = 1;
  postage = 10000;
  transfer_amount_raw = 1001;
  net_amount_raw = pos 996;
  evm_tx_hash = none;
  accept_transfer_message_hash = some "hash";
  accept_transfer_signatures = "s1" ∷ "s2" ∷ [];
  accept_transfer_signers = "a1" ∷ "a2" ∷ [];
  status = RuneDepositStatus.accepted;
}

abbrev pub token_deposit : RuneTokenDeposit
token_deposit = record {
  id = 1;
  bridge_id = 1;
  evm_block_number = 4;
  evm_tx_hash = "hash";
  evm_log_index = 0;
  receiver_btc_address = "receiver";
  transferred_token_amount = 41;
  net_rune_amount_raw = 40;
  token_address = "token";
  rune_id = 1;
  btc_tx_id = none;
  finalized_psbt = none;
  status = RuneTokenDepositStatus.accepted;
}

abbrev pub rune_abc : Rune
rune_abc = record {
  id = 1;
  bridge_id = 1;
  n = 731;
  name = "ABC";
  spaced_name = "ABC";
  symbol = "A";
  divisibility = 2;
  turbo = false;
}

abbrev pub db : Db
db = record {
  users = record { id = 1; bridge_id = 1; evm_address = "user" } ∷ [];
  next_user_id = 2;
  deposit_addresses = record { user_id = 1; btc_address = "deposit address" } ∷ [];
  incoming_btc_txs = [];
  next_btc_tx_id = 1;
  runes = rune_abc ∷ [];
  next_rune_id = 2;
  rune_deposits = deposit ∷ [];
  next_deposit_id = 2;
  token_deposits = token_deposit ∷ [];
  next_token_deposit_id = 2;
  key_values = [];
}

abbrev pub world : World
world = record { db = db; effects = [] }

abbrev pub entry : RuneEntry
entry = record {
  id = "840000:1";
  spaced_rune = "ABC";
  symbol = "A";
  divisibility = 2;
  turbo = false;
}

abbrev pub ext : External
ext = record {
  frozen = ok false;
  num_required_federators = ok 2;
  is_federator = λ a. ok true;
  is_rune_registered = λ n. ok true;
  is_rune_paused = λ n. ok false;
  accept_transfer_message_hash = λ a n m t v. ok "hash";
  address = "a1";
  sign_message = λ h. ok "s1";
  recover_message = λ h s. ok s;
  gas_price = ok 1;
  balance_wei = ok 1000000;
  pending_nonce = ok 7;
  latest_nonce = ok 7;
  accept_transfer_from_btc = λ t. ok "evm tx";
  transaction_receipt = λ h. ok (some true);
  get_rune = λ name. ok (some entry);
  rune_names = rune_names;
  add_0x_prefix = λ s. String.◌∷◌ "0" (String.◌∷◌ "x" s);
  rune_balance_at_output = λ t v r. ok 1001;
  send_message = λ n. ok tt;
}

abbrev pub config : RuneBridgeServiceConfig
config = record {
  bridge_name = "runes";
  evm_block_safety_margin = 5;
  evm_default_start_block = 1;
  runes_to_evm_fee_percentage_decimal = record { coefficient = pos 4; places = 1 };
  btc_min_confirmations = 2;
  btc_min_postage_sat = 546;
  btc_listsinceblock_buffer = 6;
  btc_network = "regtest";
  btc_max_fee_rate_sats_per_vbyte = 500;
}

abbrev pub signer : Signer
signer = record {
  wallet = wallet;
  signer_xpub = "xpub";
  rune_of_number = λ n. record { n = n; name = "ABC" };
  psbt_from_base64 = λ s. ok psbt;
  psbt_to_base64 = λ p. "psbt";
  signed_from_base64 = λ s. ok s;
  psbt_sign = λ p. ok (2, "signed");
  psbt_combine = λ a b. ok "combined";
  psbt_finalize = λ s. ok (true, "final");
  decipher = λ os. ok (
      some (record {
        edicts = record { id = "840000:1"; amount = 40; output = 2 } ∷ [];
        is_cenotaph = false;
        script = "runestone";
      }));
  decipher_signed = λ s. ok (
      some (record {
        edicts = record { id = "840000:1"; amount = 40; output = 2 } ∷ [];
        is_cenotaph = false;
        script = "runestone";
      }));
  test_mempool_accept = λ s. ok true;
  send_raw_transaction = λ s. ok "txid";
  fee_sats_per_vb = ok 1;
}

abbrev pub ask_signatures :
    SignRuneTokenToBtcTransferQuestion → Result (List SignRuneTokenToBtcTransferAnswer)
ask_signatures q =
    ok (record { signed_psbt_serialized = "signed by b"; signer_xpub = "xpub b" } ∷ [])

-- One deposit of 500 units with three confirmations.
abbrev pub listed_output : ListedOutput
listed_output = record {
  indexed = true;
  spent = false;
  runes = ("ABC", (500, 2)) ∷ [];
  value = 10000;
}

abbrev pub listed_tx : ListedTx
listed_tx = record {
  category = "receive";
  address = some "deposit address";
  txid = "tx 2";
  vout = 1;
  confirmations = pos 3;
  blockheight = some 840002;
  time = 5;
  amount = record { coefficient = pos 1; places = 4 };
}

abbrev pub listing : Listing
listing = record {
  list_since_block = λ b n. ok ("block", listed_tx ∷ []);
  sync_ord_with_bitcoind = ok tt;
  get_output = λ t v n. ok listed_output;
  change_address = "change";
}
