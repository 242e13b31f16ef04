-- ===== src/Tests/Deposits.antt =====
-- The deposits of Taproot assets, in the world of the tests of the bridge.
use nbte_bridge.Prelude.{◌*◌, ◌≡◌, refl, ◌⊎◌, true, none, some}
use nbte_bridge.Result.{ok}
use nbte_bridge.TapRsk.External.{External}
use nbte_bridge.TapRsk.Outpoints.{parse_outpoint}
use nbte_bridge.TapRsk.Deposits.{outpoints, scan_event, scan_new_deposits}
use nbte_bridge.TapRsk.Deposits.Assets.{DepositTerms, deposit_terms, get_bridgeable_asset, amounts}
use nbte_bridge.TapRsk.Deposits.Terms.{deposit_terms_amounts}
use nbte_bridge.TapRsk.Deposits.Twice.{AddressesKnown, scan_new_deposits_twice}
use nbte_bridge.Tests.Tap.{world, ext}

scanned : (scan_new_deposits ext world).0 ≡ ok tt
unfolding scan_new_deposits scan_event parse_outpoint
scanned = refl

scan_new_deposits_twice_example :
    let after = (scan_new_deposits ext world).1 in
    AddressesKnown ext (outpoints after.db) world.db.deposit_addresses
    × (scan_new_deposits ext after ≡ (ok tt, after))
scan_new_deposits_twice_example = scan_new_deposits_twice ext world scanned

abbrev known_asset : External
known_asset = record ext {
  assets_by_rsk_token_address = λ a. ok (record {
    rsk_token = a;
    tap_asset_id = "asset";
    tap_amount_divisor = 10;
    tap_native = true;
    tap_asset_name = "name";
  });
}

abbrev terms : DepositTerms
terms = record {
  asset = record {
    rsk_token = "token";
    tap_asset_id = "asset";
    tap_amount_divisor = 10;
    tap_native = true;
    tap_asset_name = "name";
  };
  rsk_address = "user";
  tap_amount = 7;
  rsk_amount = 70;
}

agreed : deposit_terms known_asset "user" none none (some 70) (some "token") ≡ ok terms
unfolding deposit_terms get_bridgeable_asset amounts
agreed = refl

deposit_terms_amounts_example :
    (terms.tap_amount * 10 ≡ terms.rsk_amount)
    × ((none ≡ some terms.tap_amount) ⊎ (some 70 ≡ some terms.rsk_amount))
deposit_terms_amounts_example =
    deposit_terms_amounts known_asset "user" none none (some 70) (some "token") terms agreed
