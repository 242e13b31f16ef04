-- ===== src/Runes/Addresses/Own.antt =====
-- Whose deposits `get_pending_deposits_for_evm_address` shows.
use nbte_bridge.Prelude.{
  ℕ, ◌+◌, String, ◌≡◌, refl, ◌⊎◌, inl, inr, true, some, List, [], ◌∷◌, ◌++◌, All, not, ◌==◌, ◌&&◌,
  nat_eq, &&-true, Bool-cases, Option-cases, arith,
}
use nbte_bridge.Result.{
  Result, ok, lookup_error, one_or_none, or_raise, or_raise-eq-ok, >>=-eq-ok, Result-cases,
}
use nbte_bridge.Rows.{find_id}
use nbte_bridge.Rows.Keys.{In, In-keep, In-sort_by, In-append}
use nbte_bridge.Runes.Models.{User, IncomingBtcTx, Rune, RuneDeposit, is_tx_detected}
use nbte_bridge.Runes.External.{RuneBridgeServiceConfig}
use nbte_bridge.Runes.World.{Db}
use nbte_bridge.Runes.Addresses.{users_at, address_of}
use nbte_bridge.Runes.Addresses.Pending.{
  PendingDeposit, detected_entry, deposit_entry, rune_deposits_of, deposit_entries, has_none,
  tx_entries, txs_entries, is_of_user, pending_btc_transactions, accepted_btc_transactions,
  text_length, entries_since, entries_of_user, get_pending_deposits_for_evm_address,
}

module _ (bridge_id : ℕ) (db : Db) where
  -- An entry for a transaction of the user: of the transaction itself, or of a deposit in it.
  pub record IsOwn (user : User) (entry : PendingDeposit) : Type 0 where
    pub tx : IncomingBtcTx
    pub stored : In tx db.incoming_btc_txs
    pub own : is_of_user bridge_id user.id tx ≡ true
    pub shown :
        (entry ≡ detected_entry tx)
        ⊎ ((deposit : RuneDeposit) × (rune : Rune) × In deposit db.rune_deposits
            × (deposit.incoming_btc_tx_id ≡ tx.id)
            × (find_id (λ (r : Rune). r.id) deposit.rune_id db.runes ≡ some rune)
            × (entry ≡ deposit_entry deposit rune))

  All-append :
      (C : PendingDeposit → Type 0) (xs ys : List PendingDeposit)
      → All C xs
      → All C ys
      → All C (xs ++ ys)
  All-append C [] ys hx hy = hy
  All-append C (x ∷ xs) ys hx hy = (hx.0, All-append C xs ys hx.1 hy)

  module _ (user : User) where
    deposit_entries-IsOwn :
        (tx : IncomingBtcTx) (ds : List RuneDeposit) {es : List PendingDeposit}
        → In tx db.incoming_btc_txs
        → is_of_user bridge_id user.id tx ≡ true
        → ((d : RuneDeposit) → In d ds → In d db.rune_deposits × (d.incoming_btc_tx_id ≡ tx.id))
        → deposit_entries db ds ≡ ok es
        → All (IsOwn user) es
    deposit_entries-IsOwn tx [] {es} stored own rows h =
        let none_listed : [] ≡ es = ground (arith, h) in rw (← none_listed) tt
    deposit_entries-IsOwn tx (d ∷ ds) {es} stored own rows h =
        let (rune, e1, h1) =
          >>=-eq-ok (or_raise (find_id (λ (r : Rune). r.id) d.rune_id db.runes) lookup_error) _ h in
        let (rest, e2, h2) = >>=-eq-ok (deposit_entries db ds) _ h1 in
        let later = deposit_entries-IsOwn tx ds stored own (λ d i. rows d (inr i)) e2 in
        let (row, link) = rows d (inl refl) in
        let listed : find_id (λ (r : Rune). r.id) d.rune_id db.runes ≡ some rune =
          or_raise-eq-ok _ lookup_error e1 in
        let entry : IsOwn user (deposit_entry d rune) = record {
          tx = tx;
          stored = stored;
          own = own;
          shown = inr (d, rune, row, link, listed, refl);
        } in
        let same : deposit_entry d rune ∷ rest ≡ es = ground (arith, h2) in
        rw (← same) (entry, later)

    tx_entries-IsOwn :
        (tx : IncomingBtcTx) {es : List PendingDeposit}
        → In tx db.incoming_btc_txs
        → is_of_user bridge_id user.id tx ≡ true
        → tx_entries db tx ≡ ok es
        → All (IsOwn user) es
    tx_entries-IsOwn tx {es} stored own h =
        elim (Bool-cases (is_tx_detected tx.status && has_none (rune_deposits_of tx db))) [
          | inl e ↦
              let entry : IsOwn user (detected_entry tx) = record {
                tx = tx;
                stored = stored;
                own = own;
                shown = inl refl;
              } in
              let same : detected_entry tx ∷ [] ≡ es = ground (arith, h) in rw (← same) (entry, tt)
          | inr e ↦
              deposit_entries-IsOwn tx (rune_deposits_of tx db) stored own
                (λ d i.
                  let (row, link) =
                    In-keep (λ (d : RuneDeposit). d.incoming_btc_tx_id == tx.id) d db.rune_deposits
                      i in
                  (row, (nat_eq.same_iff d.incoming_btc_tx_id tx.id).0 link))
                (ground (arith, h))
        ]

    txs_entries-IsOwn :
        (txs : List IncomingBtcTx) {es : List PendingDeposit}
        → ((tx : IncomingBtcTx)
            → In tx txs
            → In tx db.incoming_btc_txs × (is_of_user bridge_id user.id tx ≡ true))
        → txs_entries db txs ≡ ok es
        → All (IsOwn user) es
    txs_entries-IsOwn [] {es} rows h =
        let none_listed : [] ≡ es = ground (arith, h) in rw (← none_listed) tt
    txs_entries-IsOwn (tx ∷ txs) {es} rows h =
        let (mine, e1, h1) = >>=-eq-ok (tx_entries db tx) _ h in
        let (rest, e2, h2) = >>=-eq-ok (txs_entries db txs) _ h1 in
        let (row, own) = rows tx (inl refl) in
        let same : mine ++ rest ≡ es = ground (arith, h2) in
        rw (← same) (
          All-append (IsOwn user) mine rest (tx_entries-IsOwn tx row own e1)
            (txs_entries-IsOwn txs (λ tx i. rows tx (inr i)) e2))

    selected :
        (block_time block_number : ℕ) (tx : IncomingBtcTx)
        → In tx (
            pending_btc_transactions bridge_id user.id block_time db
            ++ accepted_btc_transactions bridge_id user.id block_number db)
        → In tx db.incoming_btc_txs × (is_of_user bridge_id user.id tx ≡ true)
    selected block_time block_number tx i =
        elim (In-append tx (pending_btc_transactions bridge_id user.id block_time db) _ i) [
          | inl p ↦
              let (row, test) = In-keep _ tx db.incoming_btc_txs (In-sort_by _ tx _ p) in
              (row, (&&-true _ _ test).0)
          | inr q ↦
              let (row, test) = In-keep _ tx db.incoming_btc_txs (In-sort_by _ tx _ q) in
              (row, (&&-true _ _ test).0)
        ]

  module _ (config : RuneBridgeServiceConfig) (get_block : ℕ → String → Result (ℕ × ℕ)) where
    nothing-IsOwn : (user : User) {es : List PendingDeposit} → ok [] ≡ ok es → All (IsOwn user) es
    nothing-IsOwn user {es} h =
        let none_listed : [] ≡ es = ground (arith, h) in rw (← none_listed) tt

    entries_of_user-IsOwn :
        (last_block : String) (user : User) {es : List PendingDeposit}
        → entries_of_user config bridge_id get_block db last_block (some user) ≡ ok es
        → All (IsOwn user) es
    entries_of_user-IsOwn last_block user {es} h =
        let listed : (t n : ℕ)
            → entries_since config bridge_id get_block db user t n ≡ ok es
            → All (IsOwn user) es =
          λ t n e. txs_entries-IsOwn user _ (selected user t n) e in
        elim (Bool-cases (not (text_length last_block == 64))) [
          | inl short ↦ nothing-IsOwn user (ground (arith, h))
          | inr full ↦ elim (Result-cases (get_block 0 last_block)) [
            | inr (x, e) ↦ nothing-IsOwn user (ground (arith, h))
            | inl ((time, height), e) ↦ elim (Bool-cases (time == 0)) [
              | inl zero_time ↦ nothing-IsOwn user (ground (arith, h))
              | inr later ↦ elim (Result-cases (get_block 1 last_block)) [
                | inr (x, e') ↦ absurd (ground (arith, h))
                | inl ((again, top), e') ↦ elim (Option-cases (address_of user.id db)) [
                  | inl none_there ↦ nothing-IsOwn user (ground (arith, h))
                  | inr (a, there) ↦
                      listed time (top + config.btc_listsinceblock_buffer) (ground (arith, h))
                ]
              ]
            ]
          ]
        ]

    -- Every entry that `get_pending_deposits_for_evm_address` returns is of a stored transaction to the
    -- user of the bridge with that address, where there is exactly one, or of a stored deposit in such a
    -- transaction, with the rune that the deposit's `rune_id` names.
    pub get_pending_deposits_for_evm_address-IsOwn :
        (to_checksum_address : String → Result String) (evm_address last_block checksum : String)
        (user : User) {es : List PendingDeposit}
        → to_checksum_address evm_address ≡ ok checksum
        → one_or_none (users_at bridge_id checksum db) ≡ ok (some user)
        → get_pending_deposits_for_evm_address config bridge_id get_block db to_checksum_address
            evm_address last_block
          ≡ ok es
        → All (IsOwn user) es
    unfolding get_pending_deposits_for_evm_address
    get_pending_deposits_for_evm_address-IsOwn to_checksum_address evm_address last_block checksum
          user e f h =
        entries_of_user-IsOwn last_block user (ground (arith, e, f, h))
