-- ===== src/TapRsk/TapToRsk/Reads.antt =====
-- The first transaction of `process_current_transfer_batch` in tap_to_rsk.py returns a stored batch.
use nbte_bridge.Prelude.{
  String, ◌≤◌, ◌≡◌, refl, ap, not, Option, none, some, List, [], ◌∷◌, length, take, keep, leb,
  length-take, beq_refl, nat_eq, arith,
}
use nbte_bridge.Result.{raise_if, external}
use nbte_bridge.Proc.{◌>>=◌}
use nbte_bridge.Proc.Hoare.{Post, Post-bind, Post-lift, Post-map}
use nbte_bridge.Rows.{find_id-append}
use nbte_bridge.Rows.Keys.{find_id-In, find_id-none, In-first, In-sort_by, In-keep}
use nbte_bridge.Transactions.{transaction, Post-transaction}
use nbte_bridge.TapRsk.Models.{TapToRskTransferBatch, TapToRskTransfer}
use nbte_bridge.TapRsk.External.{External}
use nbte_bridge.TapRsk.World.{World, Effect}
use nbte_bridge.TapRsk.TapToRsk.Batches.{
  batch_limit, current_batch, waiting_transfers, is_finalized, new_batch, compute_batch_hash,
  is_hash_stored, serialize_batch,
}
use nbte_bridge.TapRsk.TapToRsk.{
  Current, add_batch, create_batch, existing_or_created, get_or_create_current_batch, read_current,
  describe_batch,
}
use nbte_bridge.TapRsk.TapToRsk.Tidy.{IsTidy}
use nbte_bridge.TapRsk.TapToRsk.Steps.{batch_at, Follows, Follows-refl, add_batch-Follows}

-- The row of a batch is the one that was read.
abbrev pub IsStored : Option TapToRskTransferBatch → World → Type 0
IsStored none w = Unit
IsStored (some b) w = batch_at b.id w ≡ some b

abbrev pub IsRead : Option Current → World → Type 0
IsRead none w = Unit
IsRead (some c) w = batch_at c.batch.id w ≡ some c.batch

current_batch-IsStored :
    (w : World) (b : TapToRskTransferBatch)
    → IsTidy w
    → current_batch w.db ≡ some b
    → batch_at b.id w ≡ some b
current_batch-IsStored w b h e =
    let rows = w.db.tap_to_rsk_batches in
    let listed =
      In-sort_by (λ (a b : TapToRskTransferBatch). leb a.id b.id) b
        (keep (λ b. not (is_finalized b.status)) rows) (In-first b _ e) in
    find_id-In (λ b. b.id) b rows (In-keep (λ b. not (is_finalized b.status)) b rows listed).0
      (h.keyed b.id)

added-IsStored :
    (hash : String) (ts : List TapToRskTransfer) (w : World)
    → IsTidy w
    → batch_at w.db.next_tap_to_rsk_batch_id (add_batch hash ts w).1
      ≡ some (new_batch w.db.next_tap_to_rsk_batch_id hash [])
added-IsStored hash ts w h =
    let i = w.db.next_tap_to_rsk_batch_id in
    let rows = w.db.tap_to_rsk_batches in
    ground (
      arith,
      find_id-append (λ (b : TapToRskTransferBatch). b.id) i rows (new_batch i hash []),
      find_id-none (λ (b : TapToRskTransferBatch). b.id) i rows (h.fresh i (omega arith)),
      beq_refl i,
    )

module _ (ext : External) where
  create_batch-Follows :
      (ts : List TapToRskTransfer) (w : World)
      → IsTidy w
      → length ts ≤ batch_limit
      → Post
          (λ b t. Follows w t × IsStored b t × (t.effects ≡ w.effects))
          (λ t. t.effects ≡ w.effects)
          (create_batch ext ts w)
  create_batch-Follows [] w h le = (Follows-refl w, tt, refl)
  create_batch-Follows (t ∷ ts) w h le =
      Post-lift _ _ (compute_batch_hash ext w.db (t ∷ ts)) _ w refl (λ hash _.
        Post-lift _ _ (raise_if (is_hash_stored hash w.db) external) _ w refl
          (λ _ _. (add_batch-Follows hash (t ∷ ts) w le, added-IsStored hash (t ∷ ts) w h, refl)))

  existing_or_created-Follows :
      (found : Option TapToRskTransferBatch) (w : World)
      → IsTidy w
      → IsStored found w
      → Post
          (λ b t. Follows w t × IsStored b t × (t.effects ≡ w.effects))
          (λ t. t.effects ≡ w.effects)
          (existing_or_created ext found w)
  existing_or_created-Follows none w h e =
      create_batch-Follows (take batch_limit (waiting_transfers w.db)) w h
        (ground (arith, length-take batch_limit (waiting_transfers w.db)))
  existing_or_created-Follows (some b) w h e = (Follows-refl w, e, refl)

  found-IsStored : (w : World) → IsTidy w → IsStored (current_batch w.db) w
  found-IsStored w h = go (current_batch w.db) (λ b e. current_batch-IsStored w b h e)
    where
      go :
          (o : Option TapToRskTransferBatch)
          → ((b : TapToRskTransferBatch) → o ≡ some b → batch_at b.id w ≡ some b)
          → IsStored o w
      go none f = tt
      go (some b) f = f b refl

  describe_batch-IsRead :
      (b : Option TapToRskTransferBatch) (start w : World)
      → Follows start w
      → IsStored b w
      → w.effects ≡ start.effects
      → Post
          (λ c t. Follows start t × IsRead c t)
          (λ t. t.effects ≡ start.effects)
          (describe_batch ext b w)
  describe_batch-IsRead none start w f e q = (f, tt)
  describe_batch-IsRead (some b) start w f e q =
      Post-lift _ _ (serialize_batch ext w.db b) _ w q (λ serialized _. (f, e))

  pub read_current-Follows :
      (w : World)
      → IsTidy w
      → Post (λ c t. Follows w t × IsRead c t) (Follows w) (read_current ext w)
  unfolding transaction get_or_create_current_batch
  read_current-Follows w h =
      let body = existing_or_created ext (current_batch w.db) >>= describe_batch ext in
      let inner : Post (λ c t. Follows w t × IsRead c t) (λ t. t.effects ≡ w.effects) (body w) =
        Post-bind _ _ _ (existing_or_created ext (current_batch w.db) w) (describe_batch ext)
          (existing_or_created-Follows (current_batch w.db) w h (found-IsStored w h))
          (λ b t k. describe_batch-IsRead b w t k.0 k.1 k.2) in
      Post-transaction (λ c t. Follows w t × IsRead c t) (Follows w) body w
        (Post-map _ _ _ _ (body w) inner (λ _ t k. k)
          (λ t e.
            let back : record t { db = w.db } ≡ w =
              ap (λ (es : List Effect). record w { effects = es }) e in
            rw back (Follows-refl w)))
