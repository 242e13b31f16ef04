-- ===== src/Runes/Signing/Pruned.antt =====
-- What the leader keeps of the answers of the other nodes
-- (`_prune_invalid_sign_rune_to_evm_transfer_answers` and `update_rune_deposit_signatures`,
-- bridge_node/bridge/bridges/runes/service.py).
use mathlib.Core.Path.{subst}
use nbte_bridge.Prelude.{
  String, ◌≡◌, refl, Bool, true, false, not, ◌&&◌, ◌||◌, List, [], ◌∷◌, ◌++◌, any, All, contains,
  ◌==◌, string_eq, Bool-cases, inl, inr, arith,
}
use nbte_bridge.Result.{Result, Error, ok, err, validation, Result-cases}
use nbte_bridge.Runes.External.{External}
use nbte_bridge.Runes.Messages.{SignRuneToEvmTransferAnswer}
use nbte_bridge.Runes.Signing.{
  validate_sign_rune_to_evm_transfer_answer, pruned, prune_from,
  prune_invalid_sign_rune_to_evm_transfer_answers,
}

-- Whether one of the answers is by a signer, and whether no two are by the same.
abbrev pub signed_by : String → List SignRuneToEvmTransferAnswer → Bool
signed_by s answers = any (λ a. a.signer == s) answers

abbrev pub has_distinct_signers : List SignRuneToEvmTransferAnswer → Bool
has_distinct_signers [] = true
has_distinct_signers (a ∷ xs) = not (signed_by a.signer xs) && has_distinct_signers xs

signed_by-append :
    (s : String) (xs : List SignRuneToEvmTransferAnswer) (x : SignRuneToEvmTransferAnswer)
    → signed_by s (xs ++ x ∷ []) ≡ (signed_by s xs || (x.signer == s))
signed_by-append s [] x = ground arith
signed_by-append s (a ∷ xs) x = ground (arith, signed_by-append s xs x)

has_distinct_signers-append :
    (xs : List SignRuneToEvmTransferAnswer) (x : SignRuneToEvmTransferAnswer)
    → has_distinct_signers xs ≡ true
    → signed_by x.signer xs ≡ false
    → has_distinct_signers (xs ++ x ∷ []) ≡ true
has_distinct_signers-append [] x h n = ground arith
has_distinct_signers-append (a ∷ xs) x h n = ground (
  arith,
  signed_by-append a.signer xs x,
  has_distinct_signers-append xs x,
  string_eq.same_iff x.signer a.signer,
  string_eq.same_iff a.signer x.signer,
)

-- An answer that is refused leaves the others.
pruned-err :
    (e : Error) (kept skipped : Result (List SignRuneToEvmTransferAnswer))
    {r : List SignRuneToEvmTransferAnswer}
    → pruned (err e) kept skipped ≡ ok r
    → skipped ≡ ok r
pruned-err validation kept skipped h = h
pruned-err _ kept skipped h = cc h

module _ (ext : External) (message_hash : String) where
  -- Answers that all pass the leader's validation, by different signers.
  pub record IsPruned (answers : List SignRuneToEvmTransferAnswer) : Type 0 where
    pub valid :
        All (λ a. validate_sign_rune_to_evm_transfer_answer ext message_hash a ≡ ok tt) answers
    pub distinct : has_distinct_signers answers ≡ true

  valid-append :
      (xs : List SignRuneToEvmTransferAnswer) (x : SignRuneToEvmTransferAnswer)
      → All (λ a. validate_sign_rune_to_evm_transfer_answer ext message_hash a ≡ ok tt) xs
      → validate_sign_rune_to_evm_transfer_answer ext message_hash x ≡ ok tt
      → All
          (λ a. validate_sign_rune_to_evm_transfer_answer ext message_hash a ≡ ok tt)
          (xs ++ x ∷ [])
  valid-append [] x h v = (v, tt)
  valid-append (a ∷ xs) x h v = (h.0, valid-append xs x h.1 v)

  prune_from-IsPruned :
      (answers : List SignRuneToEvmTransferAnswer) (signers : List String)
      (ret : List SignRuneToEvmTransferAnswer) {kept : List SignRuneToEvmTransferAnswer}
      → IsPruned ret
      → ((s : String) → contains signers s ≡ signed_by s ret)
      → prune_from ext message_hash answers signers ret ≡ ok kept
      → IsPruned kept
  unfolding prune_from
  prune_from-IsPruned [] signers ret {kept} p same h =
      let e : ret ≡ kept = ground arith in subst IsPruned e p
  prune_from-IsPruned (x ∷ answers) signers ret {kept} p same h =
      elim (Bool-cases (contains signers x.signer)) [
        | inl seen ↦ prune_from-IsPruned answers signers ret p same (ground arith)
        | inr unseen ↦
            elim (Result-cases (validate_sign_rune_to_evm_transfer_answer ext message_hash x)) [
              | inl (u, valid) ↦
                  prune_from-IsPruned answers (x.signer ∷ signers) (ret ++ x ∷ [])
                    (record {
                      valid = valid-append ret x p.valid valid;
                      distinct =
                          has_distinct_signers-append ret x p.distinct
                            (ground (arith, same x.signer));
                    })
                    (λ s. ground (
                      arith,
                      same s,
                      signed_by-append s ret x,
                      string_eq.same_iff x.signer s,
                      string_eq.same_iff s x.signer,
                    ))
                    (ground arith)
              | inr (e, invalid) ↦ prune_from-IsPruned answers signers ret p same (
                  pruned-err e
                    (prune_from ext message_hash answers (x.signer ∷ signers) (ret ++ x ∷ [])) _
                    (ground arith))
            ]
      ]

  -- The answers that `_prune_invalid_sign_rune_to_evm_transfer_answers` keeps all pass the validation:
  -- their signers are federators and the signatures are theirs. No two of them are by one signer.
  pub prune_invalid_sign_rune_to_evm_transfer_answers-IsPruned :
      (answers : List SignRuneToEvmTransferAnswer) {kept : List SignRuneToEvmTransferAnswer}
      → prune_invalid_sign_rune_to_evm_transfer_answers ext message_hash answers ≡ ok kept
      → IsPruned kept
  unfolding prune_invalid_sign_rune_to_evm_transfer_answers
  prune_invalid_sign_rune_to_evm_transfer_answers-IsPruned answers h =
      prune_from-IsPruned answers [] [] (record { valid = tt; distinct = refl }) (λ s. refl) h
