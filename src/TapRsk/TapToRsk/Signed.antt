-- ===== src/TapRsk/TapToRsk/Signed.antt =====
-- What the leader of tap_to_rsk.py knows of the signatures that it collects.
use nbte_bridge.Prelude.{
  ℕ, String, ◌≡◌, ◌⊎◌, inl, inr, Bool, true, false, some, List, [], ◌∷◌, length, contains, ◌==◌,
  nat_eq, string_eq, Bool-cases, arith,
}
use nbte_bridge.Result.{ok, >>=-eq-ok}
use nbte_bridge.KeyValues.{find_value, find_value-put_value}
use nbte_bridge.TapRsk.Models.{SerializedTapToRskTransfer}
use nbte_bridge.TapRsk.External.{External, SignTransferBatchAnswer}
use nbte_bridge.TapRsk.TapToRsk.Signatures.{
  message_hash, are_signed_by, is_valid_response, add_response, collect_signatures,
}

module _ (ext : External) where
  -- Each signature recovers to the signer, over the message of the transfer at its place.
  abbrev pub AreSigned : String → List SerializedTapToRskTransfer → List String → Type 0
  AreSigned signer [] ss = Unit
  AreSigned signer (t ∷ ts) [] = Unit
  AreSigned signer (t ∷ ts) (s ∷ ss) =
      ((hash : String) × (message_hash ext t ≡ ok hash) × (ext.recover_message hash s ≡ ok signer))
      × AreSigned signer ts ss

  are_signed_by-AreSigned :
      (signer : String) (ts : List SerializedTapToRskTransfer) (ss : List String)
      → are_signed_by ext signer ts ss ≡ ok true
      → AreSigned signer ts ss
  are_signed_by-AreSigned signer [] ss h = tt
  are_signed_by-AreSigned signer (t ∷ ts) [] h = tt
  are_signed_by-AreSigned signer (t ∷ ts) (s ∷ ss) h =
      let (hash, e1, h1) = >>=-eq-ok (message_hash ext t) _ h in
      let (recovered, e2, h2) = >>=-eq-ok (ext.recover_message hash s) _ h1 in
      elim (Bool-cases (recovered == signer)) [
        | inl same ↦
            let by : recovered ≡ signer = (string_eq.same_iff recovered signer).0 same in
            ((hash, e1, ground (arith, e2)), are_signed_by-AreSigned signer ts ss (ground arith))
        | inr other ↦ absurd (ground arith)
      ]

  module _ (federators : List String) (num_transfers : ℕ)
      (transfers : List SerializedTapToRskTransfer) where
    -- What the leader checks of an entry.
    pub record IsSigned (signer : String) (signatures : List String) : Type 0 where
      pub federator : contains federators signer ≡ true
      pub count : length signatures ≡ num_transfers
      pub signed : AreSigned signer transfers signatures

    is_valid_response-IsSigned :
        (r : SignTransferBatchAnswer)
        → is_valid_response ext federators num_transfers transfers r ≡ ok true
        → IsSigned r.signer r.signatures
    unfolding is_valid_response
    is_valid_response-IsSigned r h = record {
      federator = ground arith;
      count = ground (arith, (nat_eq.same_iff (length r.signatures) num_transfers).0);
      signed = are_signed_by-AreSigned r.signer transfers r.signatures (ground arith);
    }

    or_added :
        (r : SignTransferBatchAnswer) (valid : Bool) (before : List (String × List String))
        (signer : String) (signatures : List String)
        → is_valid_response ext federators num_transfers transfers r ≡ ok valid
        → (find_value signer (add_response ext federators num_transfers transfers r valid before)
            ≡ some signatures)
          ⊎ IsSigned signer signatures
        → (find_value signer before ≡ some signatures) ⊎ IsSigned signer signatures
    or_added r valid before signer signatures e1 (inr done) = inr done
    or_added r false before signer signatures e1 (inl found) = inl found
    or_added r true before signer signatures e1 (inl found) =
        let put = find_value-put_value r.signer signer r.signatures before in
        elim (Bool-cases (r.signer == signer)) [
          | inl same ↦
              let by : r.signer ≡ signer = (string_eq.same_iff r.signer signer).0 same in
              let entry : r.signatures ≡ signatures = ground arith in
              let valid = is_valid_response-IsSigned r e1 in inr (rw (← by, ← entry) valid)
          | inr other ↦ inl (ground arith)
        ]

    -- If the leader's loop over the answers returns, every entry of the result is one that was there
    -- before, or its key is a federator's address, it has a signature for each transfer, and each of
    -- them recovers to that address from the contract's message for the transfer.
    pub collect_signatures-IsSigned :
        (responses : List SignTransferBatchAnswer) (before : List (String × List String))
        {after : List (String × List String)}
        → collect_signatures ext federators num_transfers transfers responses before ≡ ok after
        → (signer : String) (signatures : List String) → find_value signer after ≡ some signatures
        → (find_value signer before ≡ some signatures) ⊎ IsSigned signer signatures
    unfolding collect_signatures
    collect_signatures-IsSigned [] before h signer signatures e = inl (ground arith)
    collect_signatures-IsSigned (r ∷ rs) before h signer signatures e =
        let (valid, e1, h1) =
          >>=-eq-ok (is_valid_response ext federators num_transfers transfers r) _ h in
        let later : (find_value signer
                (add_response ext federators num_transfers transfers r valid before)
              ≡ some signatures)
            ⊎ IsSigned signer signatures =
          collect_signatures-IsSigned rs
            (add_response ext federators num_transfers transfers r valid before) h1 signer
            signatures e in
        or_added r valid before signer signatures e1 later
