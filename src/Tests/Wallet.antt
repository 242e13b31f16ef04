-- ===== src/Tests/Wallet.antt =====
-- A wallet with one output that holds runes and one that does not, each with its raw entry.
use Prim.Native.Char.{Char, code}
use nbte_bridge.Prelude.{
  Bool, leb, ◌&&◌, ◌||◌, ℕ, String, Option, none, ◌-◌, true, some, List, [], ◌∷◌, ◌==◌, string_eq,
  if◌then◌else◌,
}
use nbte_bridge.Prelude.Int.{pos}
use nbte_bridge.Result.{ok}
use nbte_bridge.Btc.Types.{RawUtxo}
use nbte_bridge.Ord.Outputs.{OrdOutput}
use nbte_bridge.Ord.Multisig.Parsing.{KeyParser}
use nbte_bridge.Ord.Names.{RuneNames}
use nbte_bridge.Ord.Multisig.Types.{RuneTransfer, Wallet, Serialization, Psbt}

abbrev pub is_ascii_capital : Char → Bool
is_ascii_capital c = leb b'A' (code c) && leb (code c) b'Z'

abbrev pub is_ascii_small : Char → Bool
is_ascii_small c = leb b'a' (code c) && leb (code c) b'z'

abbrev pub is_ascii_letter : Char → Bool
is_ascii_letter c = is_ascii_capital c || is_ascii_small c

abbrev pub rune_names : RuneNames
rune_names = record {
  is_alpha = is_ascii_letter;
  is_upper = is_ascii_capital;
  is_lower = is_ascii_small;
  from_str = λ s. ok (record { n = 731; name = s });
}

-- The descriptor of an output with two keys.
abbrev pub desc : String
desc = "wsh(multi(1,[7f3e784c/0/0/0]02557f9ba4,[8895ce69/0/0/1]03575ea3a4))#kxmewpkl"

abbrev pub derivation_map : List (String × String)
derivation_map = ("02557f9ba4", "m/0/0/0") ∷ ("03575ea3a4", "m/0/0/1") ∷ []

abbrev pub raw_utxo : String → ℕ → RawUtxo
raw_utxo txid amount = record {
  txid = txid;
  vout = 0;
  amount = record { coefficient = pos amount; places = 8 };
  confirmations = 6;
  spendable = true;
  solvable = true;
  safe = true;
  desc = some desc;
  address = some "address";
  witness_script = some "script";
}

abbrev pub ord_output : String → ℕ → OrdOutput
ord_output txid vout = record {
  txid = txid;
  vout = vout;
  amount_satoshi = if txid == "runes" then 10000 else 50000;
  rune_balances = if txid == "runes" then ("ABC", 100) ∷ [] else [];
  inscriptions = [];
}

abbrev pub serialization : Serialization
serialization = record {
  txin_size = λ i. 40;
  txout_size = λ o. 40;
  witness_size = λ n s l r. 250;
  p2wsh_script_pubkey = λ s. s;
  calculate_transaction_virtual_size = λ a b c d e. 100;
}

abbrev pub decimal_value : Char → Option ℕ
decimal_value c = if leb b'0' (code c) && leb (code c) b'9' then some (code c - b'0') else none

abbrev pub key_parser : KeyParser
key_parser = record {
  decimal_value = decimal_value;
  derivation_info = λ fingerprint path. ok path;
  pubkey_from_hex = λ hex. ok hex;
}

abbrev pub wallet : Wallet
wallet = record {
  num_required_signers = 2;
  redeem_script = "redeem";
  change_address = "change";
  change_script_pubkey = "change script";
  master_fingerprint = 0x7f ∷ 0x3e ∷ 0x78 ∷ 0x4c ∷ [];
  min_non_change_rune_utxo_confirmations = 3;
  get_rune = λ name. ok (some "840000:1");
  rune_id_from_str = λ id. ok id;
  get_ord_output = λ txid vout. ok (ord_output txid vout);
  rune_names = rune_names;
  list_unspent = ok (raw_utxo "runes" 10000 ∷ raw_utxo "plain" 50000 ∷ []);
  transaction_output_value = λ txid vout. ok (if txid == "runes" then 10000 else 50000);
  parse_address = λ a. ok a;
  is_valid_script = λ s. true;
  encipher = λ edicts change. "runestone";
  key_parser = key_parser;
  serialization = serialization;
}

abbrev pub transfers : List RuneTransfer
transfers =
    record {
      rune = record { n = 731; name = "ABC" };
      receiver = "receiver";
      amount = 40;
      postage = 10000;
    }
    ∷ []

abbrev pub psbt : Psbt
psbt = record {
  inputs =
      record {
        txid = "runes";
        vout = 0;
        value = 10000;
        witness_script = "script";
        derivation_map = derivation_map;
      }
      ∷ record {
        txid = "plain";
        vout = 0;
        value = 50000;
        witness_script = "script";
        derivation_map = derivation_map;
      }
      ∷ [];
  outputs =
      record { value = 0; script_pubkey = "runestone" }
      ∷ record { value = 10000; script_pubkey = "change script" }
      ∷ record { value = 10000; script_pubkey = "receiver" }
      ∷ record { value = 39900; script_pubkey = "change script" }
      ∷ [];
}
