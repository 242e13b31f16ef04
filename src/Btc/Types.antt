-- ===== src/Btc/Types.antt =====
-- Unspent outputs (bridge_node/bridge/common/btc/types.py).
use nbte_bridge.Prelude.{ℕ, String, Bool, Option}
use nbte_bridge.Prelude.Int.{pos_part}
use nbte_bridge.Result.{Result, ok, ◌>>=◌}
use nbte_bridge.Decimals.{Decimal}
use nbte_bridge.Btc.Amounts.{to_satoshi}

-- An entry of bitcoind's `listunspent`.
pub record RawUtxo : Type 0 where
  pub txid : String
  pub vout : ℕ
  pub amount : Decimal
  pub confirmations : ℕ
  pub spendable : Bool
  pub solvable : Bool
  pub safe : Bool
  pub desc : Option String
  pub address : Option String
  pub witness_script : Option String

pub record Utxo : Type 0 where
  pub txid : String
  pub vout : ℕ
  pub amount_satoshi : ℕ
  pub confirmations : ℕ
  pub spendable : Bool
  pub solvable : Bool
  pub safe : Bool
  pub desc : Option String
  pub address : Option String
  pub witness_script : Option String

-- `UTXO.from_rpc_response`. bitcoind's amounts are not negative, so satoshis are naturals here. Its assertion compares the amount with what `to_satoshi` was given and
-- holds whenever that returns.
unfoldable pub from_rpc_response : RawUtxo → Result Utxo
from_rpc_response raw = do
  amount ← to_satoshi raw.amount
  ok (record {
    txid = raw.txid;
    vout = raw.vout;
    amount_satoshi = pos_part amount;
    confirmations = raw.confirmations;
    spendable = raw.spendable;
    solvable = raw.solvable;
    safe = raw.safe;
    desc = raw.desc;
    address = raw.address;
    witness_script = raw.witness_script;
  })
