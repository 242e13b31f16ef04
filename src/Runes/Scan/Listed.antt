-- ===== src/Runes/Scan/Listed.antt =====
-- The part of `scan_rune_deposits` before its second transaction: the list of bitcoind, and what
-- ord says of each output.
use nbte_bridge.Prelude.{
  ℕ, zero, suc, String, Bool, false, not, Option, none, some, List, [], ◌∷◌, ◌++◌, map, ltb, leb,
  contains, ◌==◌, ◌||◌, string_eq, if◌then◌else◌,
}
use nbte_bridge.Prelude.Int.{ℤ, pos, negsuc}
use nbte_bridge.Decimals.{Decimal}
use nbte_bridge.Result.{Result, ok, err, value_error, runtime, ◌>>=◌, ◌>>◌, raise_if, or_raise}
use nbte_bridge.Ord.Names.{is_empty}
use nbte_bridge.Runes.External.{External, RuneEntry, RuneBridgeServiceConfig}

-- An element of `resp["transactions"]`.
pub record ListedTx : Type 0 where
  pub category : String
  pub address : Option String
  pub txid : String
  pub vout : ℕ
  pub confirmations : ℤ
  pub blockheight : Option ℕ
  pub time : ℕ
  pub amount : Decimal

-- ord's answer for an output: each rune has its spaced name, its amount and its divisibility.
pub record ListedOutput : Type 0 where
  pub indexed : Bool
  pub spent : Bool
  pub runes : List (String × (ℕ × ℕ))
  pub value : ℕ

-- What bitcoind and ord answer to a scan: `listsinceblock` with its `lastblock`, whether ord has
-- caught up in time, and an output at the number of the call.
pub record Listing : Type 0 where
  pub list_since_block : Option String → ℕ → Result (String × List ListedTx)
  pub sync_ord_with_bitcoind : Result (Unit {0})
  pub get_output : String → ℕ → ℕ → Result ListedOutput
  pub change_address : String

-- A transaction that is kept, with its address and `tx["ord_output"]`.
pub record ScannedTx : Type 0 where
  pub address : String
  pub txid : String
  pub vout : ℕ
  pub confirmations : ℤ
  pub blockheight : Option ℕ
  pub time : ℕ
  pub amount : Decimal
  pub ord_output : Option ListedOutput

abbrev pub at_least : ℤ → ℕ → Bool
at_least (pos n) k = leb k n
at_least (negsuc n) k = false

-- The calls for one output, where `retries` are left: `tx["ord_output"]`, and the last answer.
abbrev pub poll_output :
    (ℕ → Result ListedOutput) → ℕ → ℕ → Result (Option ListedOutput × ListedOutput)
poll_output get_output attempt zero = err runtime
poll_output get_output attempt (suc retries) = do
  let rest = poll_output get_output (suc attempt) retries
  ord_output ← get_output attempt
  if ord_output.indexed
      then ok (some ord_output, ord_output)
      else (if ord_output.spent then ok (none, ord_output) else rest)

abbrev pub rune_names_of : ListedOutput → List String
rune_names_of o = map (λ r. r.0) o.runes

module _ (listing : Listing) where
  -- The output of a transaction, and the names of the runes in the last answer.
  abbrev pub find_output : ListedTx → Result (Option ListedOutput × List String)
  find_output tx =
      if at_least tx.confirmations 1
      then (do
        found ← poll_output (listing.get_output tx.txid tx.vout) 0 10
        ok (found.0, rune_names_of found.1))
      else ok (none, [])

  -- One turn of the loop: `none` for a transaction that is passed over.
  unfoldable pub scan_tx : ListedTx → Result (Option (ScannedTx × List String))
  scan_tx tx = elim tx.address [
    | none ↦ ok none
    | some address ↦
        if not (tx.category == "receive")
          || (is_empty address || (address == listing.change_address))
        then ok none
        else (do
          found ← find_output tx
          ok (
              some (
                record {
                  address = address;
                  txid = tx.txid;
                  vout = tx.vout;
                  confirmations = tx.confirmations;
                  blockheight = tx.blockheight;
                  time = tx.time;
                  amount = tx.amount;
                  ord_output = found.0;
                },
                found.1,
              )))
  ]

  abbrev pub scan_txs : List ListedTx → Result (List ScannedTx × List String)
  scan_txs [] = ok ([], [])
  scan_txs (tx ∷ txs) = do
    scanned ← scan_tx tx
    rest ← scan_txs txs
    ok (elim scanned [ none ↦ rest | some s ↦ (s.0 ∷ rest.0, s.1 ++ rest.1) ])

-- The set `rune_names`. Its order in Python is not specified; here it is that of the last
-- occurrences.
abbrev pub distinct : List String → List String
distinct [] = []
distinct (x ∷ xs) = if contains xs x then distinct xs else x ∷ distinct xs

abbrev pub get_entries : External → List String → Result (List RuneEntry)
get_entries ext [] = ok []
get_entries ext (name ∷ names) = do
  response ← ext.get_rune name
  entry ← or_raise response runtime
  rest ← get_entries ext names
  ok (entry ∷ rest)

-- What the second transaction works on.
pub record Scanned : Type 0 where
  pub new_last_block : String
  pub transactions : List ScannedTx
  pub rune_entries : List RuneEntry

unfoldable pub list_deposits :
    RuneBridgeServiceConfig → External → Listing → Option String → Result Scanned
list_deposits config ext listing last_bitcoin_block = do
  raise_if (ltb config.btc_listsinceblock_buffer config.btc_min_confirmations) value_error
  resp ← listing.list_since_block last_bitcoin_block config.btc_listsinceblock_buffer
  listing.sync_ord_with_bitcoind
  scanned ← scan_txs listing resp.1
  rune_entries ← get_entries ext (distinct scanned.1)
  ok (record { new_last_block = resp.0; transactions = scanned.0; rune_entries = rune_entries })
