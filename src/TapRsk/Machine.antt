-- ===== src/TapRsk/Machine.antt =====
-- What the bridge between Taproot assets and RSK promises of a batch of transfers, in either direction:
-- a batch is opened, sending starts once, at most `limit` payments are made after that and before the
-- batch is completed, and then it is closed.
use nbte_bridge.Prelude.{ℕ, suc, ◌≤◌, ◌<◌, ◌≡◌, refl, Option, none, some, arith}

pub data Phase : Type 0 where
  pending sending sent closed : Phase

-- What can be seen of a batch: its phase, if there is such a batch, and the payments made for it.
pub record BatchView : Type 0 where
  pub phase : Option Phase
  pub payments : ℕ

-- A batch that was completed.
abbrev pub IsDone : Option Phase → Type 0
IsDone (some sent) = Unit
IsDone (some closed) = Unit
IsDone _ = ⊥

-- A batch whose sending has not started.
abbrev pub IsUnsent : Option Phase → Type 0
IsUnsent none = Unit
IsUnsent (some pending) = Unit
IsUnsent _ = ⊥

module _ (limit : ℕ) where
  pub data Step (v : BatchView) (u : BatchView) : Type 0 where
    opening : v.phase ≡ none → u ≡ record v { phase = some pending } → Step v u
    starting : v.phase ≡ some pending → u ≡ record v { phase = some sending } → Step v u
    paying :
        v.phase ≡ some sending
        → v.payments < limit
        → u ≡ record v { payments = suc v.payments }
        → Step v u
    completing : v.phase ≡ some sending → u ≡ record v { phase = some sent } → Step v u
    closing : v.phase ≡ some sent → u ≡ record v { phase = some closed } → Step v u

  pub data Run (v : BatchView) : BatchView → Type 0 where
    here : Run v v
    next : {u t : BatchView} → Run v u → Step u t → Run v t

  pub Run-trans : {v u t : BatchView} → Run v u → Run u t → Run v t
  Run-trans r here = r
  Run-trans r (next s st) = next (Run-trans r s) st

  -- How many payments a phase allows.
  abbrev pub allowance : Option Phase → ℕ
  allowance none = 0
  allowance (some pending) = 0
  allowance (some _) = limit

  abbrev pub IsSound : BatchView → Type 0
  IsSound v = v.payments ≤ allowance v.phase

  pub payments_le : (v : BatchView) → IsSound v → v.payments ≤ limit
  payments_le v h = ground arith

  pub IsSound-unsent : (v : BatchView) → IsSound v → IsUnsent v.phase → v.payments ≡ 0
  IsSound-unsent v h unsent = ground arith

  Step-IsSound : {v u : BatchView} → Step v u → IsSound v → IsSound u
  Step-IsSound (opening p e) h = ground arith
  Step-IsSound (starting p e) h = ground arith
  Step-IsSound (paying p lt e) h = ground arith
  Step-IsSound (completing p e) h = ground arith
  Step-IsSound (closing p e) h = ground arith

  pub Run-IsSound : {v u : BatchView} → Run v u → IsSound v → IsSound u
  Run-IsSound here h = h
  Run-IsSound (next r st) h = Step-IsSound st (Run-IsSound r h)

  Step-IsDone :
      {v u : BatchView} → Step v u → IsDone v.phase → IsDone u.phase × (u.payments ≡ v.payments)
  Step-IsDone (opening p e) h = ground arith
  Step-IsDone (starting p e) h = ground arith
  Step-IsDone (paying p lt e) h = ground arith
  Step-IsDone (completing p e) h = ground arith
  Step-IsDone (closing p e) h = ground arith

  pub Run-IsDone :
      {v u : BatchView} → Run v u → IsDone v.phase → IsDone u.phase × (u.payments ≡ v.payments)
  Run-IsDone here h = (h, refl)
  Run-IsDone (next r st) h = ground (arith, Run-IsDone r h, Step-IsDone st)
