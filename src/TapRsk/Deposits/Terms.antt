-- ===== src/TapRsk/Deposits/Terms.antt =====
-- The amounts of a deposit address for Taproot assets.
use native.Mathlib.Nat.{add-zero, div-add-mod'}
use nbte_bridge.Prelude.{
  ℕ, ◌*◌, ◌/◌, ◌%◌, String, ◌≡◌, ap, sym, ◌∙◌, ◌+◌, ◌⊎◌, inl, inr, not, Option, none, some, is_some,
  ◌==◌, ◌&&◌, nat_eq, Bool-cases, arith,
}
use nbte_bridge.Result.{ok, value_error, raise_if, >>=-eq-ok}
use nbte_bridge.TapRsk.External.{External}
use nbte_bridge.TapRsk.Deposits.Assets.{
  DepositTerms, amounts, get_bridgeable_asset, without_prefix, deposit_terms,
}

amounts_lem :
    (divisor : ℕ) (tap_amount rsk_amount : Option ℕ) (tap rsk : ℕ)
    → amounts divisor tap_amount rsk_amount ≡ ok (tap, rsk)
    → (tap * divisor ≡ rsk) × ((tap_amount ≡ some tap) ⊎ (rsk_amount ≡ some rsk))
unfolding amounts
amounts_lem divisor none none tap rsk h = absurd (ground (arith, h))
amounts_lem divisor (some t) none tap rsk h = (ground (arith, h), inl (ground (arith, h)))
amounts_lem divisor tap_amount (some r) tap rsk h = elim (Bool-cases (divisor == 0)) [
  | inl none_given ↦ absurd (ground (arith, none_given, h))
  | inr nonzero ↦ elim (Bool-cases (r % divisor == 0)) [
    | inr left_over ↦ absurd (ground (arith, nonzero, left_over, h))
    | inl exact ↦
        let first : r / divisor ≡ tap = ground (arith, nonzero, exact, h) in
        let second : r ≡ rsk = ground (arith, nonzero, exact, h) in
        let rest : r % divisor ≡ 0 = (nat_eq.same_iff (r % divisor) 0).0 exact in
        let split : r / divisor * divisor + 0 ≡ r =
          ap (λ t. r / divisor * divisor + t) (sym rest) ∙ div-add-mod' r divisor in
        let product : tap * divisor ≡ r =
          ap (λ t. t * divisor) (sym first) ∙ sym (add-zero (r / divisor * divisor)) ∙ split in
        (product ∙ second, inr (ap some second))
  ]
]

-- Where the checks of `generate_deposit_address` pass, the amount in RSK tokens is exactly the amount of
-- the Taproot asset times the asset's divisor, and the one amount that was given is kept.
pub deposit_terms_amounts :
    (ext : External) (user_rsk_address : String) (tap_amount : Option ℕ)
    (tap_asset_id : Option String) (rsk_amount : Option ℕ) (rsk_token_address : Option String)
    (terms : DepositTerms)
    → deposit_terms ext user_rsk_address tap_amount tap_asset_id rsk_amount rsk_token_address
      ≡ ok terms
    → (terms.tap_amount * terms.asset.tap_amount_divisor ≡ terms.rsk_amount)
      × ((tap_amount ≡ some terms.tap_amount) ⊎ (rsk_amount ≡ some terms.rsk_amount))
unfolding deposit_terms
deposit_terms_amounts ext user_rsk_address tap_amount tap_asset_id rsk_amount rsk_token_address
      terms h =
    let (u1, e1, h1) =
      >>=-eq-ok (raise_if (not (is_some tap_amount) && not (is_some rsk_amount)) value_error) _ h in
    let (u2, e2, h2) =
      >>=-eq-ok (raise_if (is_some tap_amount && is_some rsk_amount) value_error) _ h1 in
    let (u3, e3, h3) =
      >>=-eq-ok
        (raise_if (not (is_some tap_asset_id) && not (is_some rsk_token_address)) value_error) _
        h2 in
    let (u4, e4, h4) =
      >>=-eq-ok (raise_if (is_some tap_asset_id && is_some rsk_token_address) value_error) _ h3 in
    let (asset, e5, h5) =
      >>=-eq-ok (get_bridgeable_asset ext rsk_token_address (without_prefix ext tap_asset_id)) _
        h4 in
    let ((tap, rsk), e6, h6) =
      >>=-eq-ok (amounts asset.tap_amount_divisor tap_amount rsk_amount) _ h5 in
    let (checksum, e7, h7) = >>=-eq-ok (ext.to_checksum_address user_rsk_address) _ h6 in
    let made : record { asset = asset; rsk_address = checksum; tap_amount = tap; rsk_amount = rsk }
        ≡ terms =
      ground (arith, h7) in
    let amount = amounts_lem asset.tap_amount_divisor tap_amount rsk_amount tap rsk e6 in
    rw (← made) amount
