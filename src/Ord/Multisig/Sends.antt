-- ===== src/Ord/Multisig/Sends.antt =====
-- What a transaction of `create_rune_psbt` sends: its outputs and edicts, and the runes it spends.
use mathlib.Core.Path.{subst, subst₂, ap₂}
use nbte_bridge.Prelude.{
  ℕ, suc, ◌+◌, ◌≤◌, ◌<◌, ◌≡◌, refl, sym, ◌∙◌, ap, String, some, List, [], ◌∷◌, ◌++◌, map, sum_by,
  sum_by-append, ◌==◌, nat_eq, string_eq, if◌then◌else◌, Bool-cases, inl, inr, arith,
}
use mathlib.Core.List.{append-nil, append_assoc}
use nbte_bridge.Prelude.Int.{pos}
use nbte_bridge.Result.{ok, >>=-eq-ok, or_raise, raise_if, lookup_error, zero_transfer_amount}
use nbte_bridge.Btc.Types.{Utxo}
use nbte_bridge.Ord.Outputs.{lookup, or_zero}
use nbte_bridge.Ord.Multisig.Types.{
  RuneTransfer, Edict, TxOut, PsbtInput, Psbt, Wallet, assert_valid,
}
use nbte_bridge.Ord.Multisig.Plan.{Plan, plan_transfer, plan_transfers, add_amount, empty_plan}
use nbte_bridge.Ord.Multisig.Funding.{create_rune_psbt}
use nbte_bridge.Ord.Multisig.Picked.{Picked, stop, skip, pick, inputs_of, RuneInput, fund-Funded}
use nbte_bridge.Ord.Multisig.Coverage.{Covers, held}
use nbte_bridge.Ord.Multisig.Balance.{create_rune_psbt-Run, IsBalanced, finish_psbt-IsBalanced}
use nbte_bridge.Ord.Multisig.Spends.{inputs-Picked}

-- The amount that the transfers of a list send of one rune.
pub requested : String → List RuneTransfer → ℕ
requested name [] = 0
requested name (t ∷ ts) =
    if t.rune.name == name then t.amount + requested name ts else requested name ts

lookup-add_amount :
    (n m : String) (a : ℕ) (l : List (String × ℕ))
    → or_zero (lookup n (add_amount m a l)) ≡ (if m == n then a else 0) + or_zero (lookup n l)
lookup-add_amount n m a [] = ground arith
lookup-add_amount n m a ((j, b) ∷ l) = ground (
  arith,
  string_eq.same_iff j n,
  string_eq.same_iff m n,
  string_eq.same_iff j m,
  lookup-add_amount n m a l,
)

module _ (wallet : Wallet) where
  -- The edict and the output of one transfer, at output k.
  pub record SendsOne (t : RuneTransfer) (k : ℕ) (e : Edict) (o : TxOut) : Type 0 where
    pub amount : e.amount ≡ t.amount
    pub positive : 0 < e.amount
    pub output : e.output ≡ k
    pub id : String
    pub known : wallet.get_rune t.rune.name ≡ ok (some id)
    pub rune_id : wallet.rune_id_from_str id ≡ ok e.id
    pub postage : o.value ≡ t.postage
    pub receiver : wallet.parse_address t.receiver ≡ ok o.script_pubkey

  -- Edicts and outputs of transfers, the first of which goes to output k.
  abbrev pub Sends : List RuneTransfer → ℕ → List Edict → List TxOut → Type 0
  Sends [] k [] [] = Unit
  Sends (t ∷ ts) k (e ∷ es) (o ∷ os) = SendsOne t k e o × Sends ts (suc k) es os
  Sends _ k _ _ = ⊥

  plan_transfer-SendsOne :
      (t : RuneTransfer) (k : ℕ) {p : Edict × TxOut}
      → plan_transfer wallet t k ≡ ok p
      → SendsOne t k p.0 p.1
  plan_transfer-SendsOne t k {p} h =
      let (_, e0, h0) = >>=-eq-ok (assert_valid wallet t) _ h in
      let (response, e1, h1) = >>=-eq-ok (wallet.get_rune t.rune.name) _ h0 in
      let (id, e2, h2) = >>=-eq-ok (or_raise response lookup_error) _ h1 in
      let (rune_id, e3, h3) = >>=-eq-ok (wallet.rune_id_from_str id) _ h2 in
      let (_, e4, h4) = >>=-eq-ok (raise_if (t.amount == 0) zero_transfer_amount) _ h3 in
      let (script, e5, h5) = >>=-eq-ok (wallet.parse_address t.receiver) _ h4 in
      record {
        amount = ground arith;
        positive = ground arith;
        output = ground arith;
        id = id;
        known = ground arith;
        rune_id = ground arith;
        postage = ground arith;
        receiver = ground arith;
      }

  -- What the loop over the transfers has added to a plan.
  record Extends (ts : List RuneTransfer) (k : ℕ) (plan plan' : Plan) : Type 0 where
    edicts : List Edict
    outputs : List TxOut
    sends : Sends ts k edicts outputs
    more_edicts : plan'.edicts ≡ plan.edicts ++ edicts
    more_outputs : plan'.rune_outputs ≡ plan.rune_outputs ++ outputs
    amounts :
        (n : String)
        → or_zero (lookup n plan'.required) ≡ requested n ts + or_zero (lookup n plan.required)

  plan_transfers-Extends :
      (ts : List RuneTransfer) (k : ℕ) (plan : Plan) {plan' : Plan}
      → plan_transfers wallet ts k plan ≡ ok plan'
      → Extends ts k plan plan'
  unfolding requested
  plan_transfers-Extends [] k plan h = record {
    edicts = [];
    outputs = [];
    sends = tt;
    more_edicts = rw append-nil (ground arith);
    more_outputs = rw append-nil (ground arith);
    amounts = λ n. ground arith;
  }
  plan_transfers-Extends (t ∷ ts) k plan {plan'} h =
      let (p, planned, h1) = >>=-eq-ok (plan_transfer wallet t k) _ h in
      let rest = plan_transfers-Extends ts (suc k) _ h1 in
      record {
        edicts = p.0 ∷ rest.edicts;
        outputs = p.1 ∷ rest.outputs;
        sends = (plan_transfer-SendsOne t k planned, rest.sends);
        more_edicts = rest.more_edicts ∙ append_assoc plan.edicts (p.0 ∷ []) rest.edicts;
        more_outputs = rest.more_outputs ∙ append_assoc plan.rune_outputs (p.1 ∷ []) rest.outputs;
        amounts = λ n.
            ground (arith, rest.amounts n, lookup-add_amount n t.rune.name t.amount plan.required);
      }

  -- What is required of a rune is what the transfers send of it.
  Covers-requested :
      (n : String) (required : List (String × ℕ)) (ps : List (Utxo × PsbtInput))
      → Covers wallet (map (λ (r : String × ℕ). (r.0, pos r.1)) required) ps
      → or_zero (lookup n required) ≤ sum_by (λ p. held wallet n p.0.txid p.0.vout) ps
  Covers-requested n [] ps c = omega arith
  Covers-requested n ((j, a) ∷ required) ps c = elim (Bool-cases (j == n)) [
    | inl same ↦ rw same (
        subst (λ m. a ≤ sum_by (λ p. held wallet m p.0.txid p.0.vout) ps)
          ((string_eq.same_iff j n).0 same) c.0)
    | inr other ↦ rw other (Covers-requested n required ps c.1)
  ]

  held_inputs :
      (n : String) {us : List Utxo} {ps : List (Utxo × PsbtInput)}
      → Picked (RuneInput wallet) us ps
      → sum_by (λ p. held wallet n p.0.txid p.0.vout) ps
        ≡ sum_by (λ (i : PsbtInput). held wallet n i.txid i.vout) (inputs_of ps)
  held_inputs n stop = refl
  held_inputs n (skip p) = held_inputs n p
  held_inputs n (pick {u = u} {i = i} c p) =
      ap₂ ◌+◌ (ap₂ (held wallet n) (sym c.input.same_txid) (sym c.input.same_vout))
        (held_inputs n p)

-- The runes that the inputs of a transaction of `create_rune_psbt` hold, as ord reports them, are
-- at least what the transfers ask for, for each rune.
pub create_rune_psbt_covers :
    (wallet : Wallet) (transfers : List RuneTransfer) (rate limit : ℕ) {psbt : Psbt}
    → create_rune_psbt wallet transfers rate limit ≡ ok psbt
    → (rune : String)
    → requested rune transfers
      ≤ sum_by (λ (i : PsbtInput). held wallet rune i.txid i.vout) psbt.inputs
create_rune_psbt_covers wallet transfers rate limit {psbt} h rune =
    let run = create_rune_psbt-Run wallet transfers rate limit h in
    let plan = plan_transfers-Extends wallet transfers 2 empty_plan run.planned in
    let (ps, qs, p, q, covers, e) = inputs-Picked wallet transfers rate limit run in
    let balance : PsbtInput → ℕ = λ i. held wallet rune i.txid i.vout in
    omega (
      arith,
      plan.amounts rune,
      Covers-requested wallet rune run.plan.required ps covers,
      held_inputs wallet rune p,
      ap (sum_by balance) e,
      sum_by-append balance (inputs_of ps) (inputs_of qs),
    )

-- A transaction of `create_rune_psbt` has, in this order: the runestone with a value of 0, the
-- output for rune change with 10000 sat, one output with its postage for each transfer, and at most
-- one change output of at least 1000 sat. Its runestone has for each transfer an edict of the
-- transfer's rune and positive amount, which names that transfer's output. Inputs pay outputs and
-- the intended fee exactly, and there are at most as many inputs as the limit allows.
pub create_rune_psbt-Sends :
    (wallet : Wallet) (transfers : List RuneTransfer) (rate limit : ℕ) {psbt : Psbt}
    → create_rune_psbt wallet transfers rate limit ≡ ok psbt
    → (edicts : List Edict) × (outputs : List TxOut) × Sends wallet transfers 2 edicts outputs
      × IsBalanced wallet rate limit
          (record { value = 0; script_pubkey = wallet.encipher edicts 1 }
            ∷ record { value = 10000; script_pubkey = wallet.change_script_pubkey }
            ∷ outputs)
          psbt
create_rune_psbt-Sends wallet transfers rate limit {psbt} h =
    let run = create_rune_psbt-Run wallet transfers rate limit h in
    let plan = plan_transfers-Extends wallet transfers 2 empty_plan run.planned in
    let second = fund-Funded wallet _ _ _ _ run.paid in
    (
      run.plan.edicts,
      run.plan.rune_outputs,
      subst₂ (λ es os. Sends wallet transfers 2 es os) (sym plan.more_edicts)
          (sym plan.more_outputs) plan.sends,
      finish_psbt-IsBalanced wallet rate limit _ _ second.enough run.finished,
    )
