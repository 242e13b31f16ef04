-- ===== src/Tests/Once.antt =====
-- Deposits that are sent, confirmed and scanned.
use nbte_bridge.Prelude.{arith}
use nbte_bridge.Result.{ok}
use nbte_bridge.Proc.Hoare.{Post}
use nbte_bridge.Runes.ToEvm.{send_rune_deposit_to_evm, confirm_sent_rune_deposit}
use nbte_bridge.Runes.ToEvm.Once.{
  IsOnce, confirm_sent_rune_deposit-IsOnce, send_rune_deposit_to_evm-IsOnce,
}
use nbte_bridge.Runes.ToBtc.Handle.{handle_accepted_rune_token_deposit}
use nbte_bridge.Runes.ToBtc.Once.{IsPaidOnce, handle_accepted_rune_token_deposit-IsPaidOnce}
use nbte_bridge.Runes.Quiet.{IsSafe, IsQuiet}
use nbte_bridge.Runes.Scan.Store.{scan_rune_deposits}
use nbte_bridge.Runes.Scan.Once.{scan_rune_deposits-IsQuiet}
use nbte_bridge.Runes.Scan.Tokens.{EventSource, scan_rune_token_deposits}
use nbte_bridge.Runes.Scan.TokensOnce.{scan_rune_token_deposits-IsQuiet}
use nbte_bridge.Tests.Service.{world, ext, config, signer, ask_signatures, listing}
use nbte_bridge.Tests.Chain.{event}

world-IsOnce : IsOnce world
world-IsOnce = record { once = λ i. omega arith }

world-IsPaidOnce : IsPaidOnce world
world-IsPaidOnce = record { paid = λ i. omega arith }

pub world-IsSafe : IsSafe world
world-IsSafe = record { to_evm = world-IsOnce; to_btc = world-IsPaidOnce }

send_rune_deposit_to_evm-IsOnce_example :
    Post (λ _ t. IsOnce t) IsOnce (send_rune_deposit_to_evm 1 1 ext world)
send_rune_deposit_to_evm-IsOnce_example = send_rune_deposit_to_evm-IsOnce 1 1 ext world world-IsOnce

confirm_sent_rune_deposit-IsOnce_example :
    Post (λ _ t. IsOnce t) IsOnce (confirm_sent_rune_deposit 1 1 ext world)
confirm_sent_rune_deposit-IsOnce_example =
    confirm_sent_rune_deposit-IsOnce 1 1 ext world world-IsOnce

handle_accepted_rune_token_deposit-IsPaidOnce_example :
    Post
      (λ _ t. IsPaidOnce t)
      IsPaidOnce
      (handle_accepted_rune_token_deposit config 1 ext signer ask_signatures 1 world)
handle_accepted_rune_token_deposit-IsPaidOnce_example =
    handle_accepted_rune_token_deposit-IsPaidOnce config 1 ext signer ask_signatures 1 world
      world-IsPaidOnce

scan_rune_deposits-IsQuiet_example :
    Post (λ _ t. IsQuiet world t) (IsQuiet world) (scan_rune_deposits config 1 ext listing world)
scan_rune_deposits-IsQuiet_example =
    scan_rune_deposits-IsQuiet config 1 ext listing world world-IsSafe

abbrev pub source : EventSource
source = record {
  block_number = ok 20;
  rune_transfer_to_btc = event;
  pyord_rune = λ n. record { n = n; name = "ABC" };
}

scan_rune_token_deposits-IsQuiet_example :
    Post
      (λ _ t. IsQuiet world t)
      (IsQuiet world)
      (scan_rune_token_deposits config 1 ext source world)
scan_rune_token_deposits-IsQuiet_example =
    scan_rune_token_deposits-IsQuiet config 1 ext source world world-IsSafe
