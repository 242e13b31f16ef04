-- ===== src/Tests/Chain.antt =====
-- A chain with one event in each block, at a node that fails every first call; a store of values;
-- amounts and names.
use mathlib.Core.List.{Perm}
use nbte_bridge.Prelude.{
  ℕ, ◌+◌, ◌-◌, ◌*◌, ◌^◌, ◌≤◌, ◌<◌, ◌≡◌, refl, false, true, none, List, [], ◌∷◌, ◌==◌, nat_eq,
  string_eq, if◌then◌else◌, arith,
}
use nbte_bridge.Prelude.Int.{pos, ◌*ℤ◌}
use nbte_bridge.Result.{ok, err, external, timeout}
use nbte_bridge.Proc.{continue, pure}
use nbte_bridge.Btc.Amounts.{
  to_satoshi, from_satoshi, from_satoshi-to_satoshi, to_satoshi-from_satoshi,
}
use nbte_bridge.Ord.Names.{
  remove_spacers, remove_spacers-remove_spacers, all_chars, any_char, without_spacers, is_empty,
}
use nbte_bridge.Evm.Events.{EventData, ContractEvent, get_events}
use nbte_bridge.Evm.Order.{IsOrdered}
use nbte_bridge.Evm.Batches.{Answers, blocks, get_events_lem}
use nbte_bridge.Evm.Stops.{get_events_stops}
use nbte_bridge.Evm.Scanner.{
  EvmEventScanner, last_scanned_block, scan_new_events, scan_new_events_lem,
}
use nbte_bridge.Runes.Scan.Tokens.{RuneTransferToBtc}
use nbte_bridge.Runes.Amounts.{calculate_rune_to_evm_transfer_amounts, calculate_amounts_split}
use nbte_bridge.Runes.World.{rune_bridge_table, Db, World, Service}
use nbte_bridge.KeyValues.{number}
use nbte_bridge.Tests.Wallet.{rune_names, is_ascii_letter, is_ascii_capital, is_ascii_small}
use nbte_bridge.KeyValues.{get_value, set_value, get_value-set_value}

abbrev pub chain : ℕ → List (EventData RuneTransferToBtc)
chain n =
    record {
      event = "RuneTransferToBtc";
      block_number = n;
      transaction_index = 0;
      log_index = n;
      transaction_hash = "hash";
      args = record {
        rune = 731;
        receiver_btc_address = "receiver";
        token = "token";
        net_rune_amount = 40;
        transferred_token_amount = 41;
      };
    }
    ∷ []

abbrev pub event : ContractEvent RuneTransferToBtc
event a b n = if n == 0 then err external else ok (blocks chain a ((b - a) + 1))

answers : Answers chain 10 event
answers = record {
  answered = λ a b. 1;
  answered_le = λ a b. omega arith;
  failing = λ a b n lt. (external, grind arith);
  answer = λ a b h. refl;
}

event_stops : (a b n : ℕ) → ¬ (event a b n ≡ err timeout)
event_stops a b n h = ground arith

get_events_stops_example : ¬ (get_events event 5 350 100 ≡ err timeout)
get_events_stops_example = get_events_stops event event_stops 5 350 100

get_events_lem_example : get_events event 5 350 100 ≡ ok (blocks chain 5 ((350 + 1) - 5))
get_events_lem_example = get_events_lem chain event answers 100 5 350 (omega arith)

abbrev db : Db
db = record {
  users = [];
  next_user_id = 1;
  deposit_addresses = [];
  incoming_btc_txs = [];
  next_btc_tx_id = 1;
  runes = [];
  next_rune_id = 1;
  rune_deposits = [];
  next_deposit_id = 1;
  token_deposits = [];
  next_token_deposit_id = 1;
  key_values = ("last", number 3) ∷ [];
}

abbrev world : World
world = record { db = db; effects = [] }

abbrev one_event_scanner : EvmEventScanner RuneTransferToBtc
one_event_scanner = record {
  block_number = ok 250;
  events = event ∷ [];
  block_safety_margin = 5;
  last_scanned_block_key = "last";
  default_start_block = 1;
}

abbrev ignore_events : List (EventData RuneTransferToBtc) → Service (Unit {0})
ignore_events events = pure tt

last_block : last_scanned_block one_event_scanner db ≡ ok 3
unfolding get_value
last_block = refl

scan_new_events_lem_example :
    (events : List (EventData RuneTransferToBtc)) × Perm events (blocks chain (3 + 1) (250 - 5 - 3))
    × IsOrdered events
    × (scan_new_events one_event_scanner ignore_events world
        ≡ continue (ignore_events events world) (λ _. set_value "last" (number (250 - 5))))
scan_new_events_lem_example =
    scan_new_events_lem one_event_scanner ignore_events chain event answers refl 250 3 world refl
      last_block (omega arith)

get_value-set_value_example :
    get_value "other" none (set_value "last" (number 8) world).1.db ≡ get_value "other" none db
get_value-set_value_example = get_value-set_value "last" "other" (number 8) none world

to_satoshi-from_satoshi_example : to_satoshi (from_satoshi (pos 150000000)) ≡ ok (pos 150000000)
to_satoshi-from_satoshi_example = to_satoshi-from_satoshi 150000000

half : to_satoshi (record { coefficient = pos 15; places = 1 }) ≡ ok (pos 150000000)
unfolding to_satoshi ◌*ℤ◌
half = refl

from_satoshi-to_satoshi_example :
    pos 150000000 *ℤ pos (10 ^ 1) ≡ pos 15 *ℤ pos (10 ^ (from_satoshi (pos 150000000)).places)
from_satoshi-to_satoshi_example =
    from_satoshi-to_satoshi (record { coefficient = pos 15; places = 1 }) half

unspaced : remove_spacers rune_names "DOG•GO" ≡ ok "DOGGO"
unfolding remove_spacers
unspaced = refl

remove_spacers-remove_spacers_example :
    (remove_spacers rune_names "DOGGO" ≡ ok "DOGGO")
    × ("DOGGO" ≡ without_spacers "DOG•GO")
    × (without_spacers "DOGGO" ≡ "DOGGO")
    × (is_empty "DOGGO" ≡ false)
    × (all_chars is_ascii_letter "DOGGO" ≡ true)
    × (any_char is_ascii_capital "DOGGO" ≡ true)
    × (any_char is_ascii_small "DOGGO" ≡ false)
remove_spacers-remove_spacers_example = remove_spacers-remove_spacers rune_names "DOG•GO" unspaced

calculate_amounts_split_example :
    let amounts =
      calculate_rune_to_evm_transfer_amounts (record { coefficient = pos 4; places = 1 }) 1001 2 in
    (net fee : ℕ) × (amounts.net_amount_raw ≡ pos net)
    × (amounts.fee_raw ≡ pos fee)
    × (net + fee ≡ 1001)
    × (1001 * 4 ≤ fee * 10 ^ (1 + 2))
    × (fee * 10 ^ (1 + 2) < 1001 * 4 + 10 ^ (1 + 2))
calculate_amounts_split_example = calculate_amounts_split 1001 4 1 2 (omega arith)
