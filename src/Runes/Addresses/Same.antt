-- ===== src/Runes/Addresses/Same.antt =====
-- The deposit address of a user who asks for it again.
use nbte_bridge.Prelude.{
  ℕ, String, ◌≡◌, ◌∙◌, true, some, ◌==◌, ◌&&◌, nat_eq, string_eq, beq_refl, arith, Option-cases,
  inl, inr,
}
use nbte_bridge.Result.{ok, first, Result-cases}
use nbte_bridge.Rows.Keys.{first-keep_append}
use nbte_bridge.Runes.Models.{User, DepositAddress}
use nbte_bridge.Runes.World.{World}
use nbte_bridge.Runes.Addresses.{
  Lookup, add_user, users_at, address_of, address_of_user, address_for, generate_deposit_address,
}

module _ (look : Lookup) (bridge_id : ℕ) where
  address_of_user_twice :
      (user : User) (w : World) (a : String)
      → (address_of_user look bridge_id user w).0 ≡ ok a
      → let after = (address_of_user look bridge_id user w).1 in
        address_of_user look bridge_id user after ≡ (ok a, after)
  address_of_user_twice user w a h = elim (Option-cases (address_of user.id w.db)) [
    | inr (address, e) ↦ ground arith
    | inl e ↦ elim (Result-cases (look.derive_address user.id)) [
      | inr (x, r) ↦ ground arith
      | inl (derived, r) ↦
          let new : DepositAddress = record { user_id = user.id; btc_address = derived } in
          let stored =
            first-keep_append (λ (a : DepositAddress). a.user_id == user.id) w.db.deposit_addresses
              new e (beq_refl user.id) in
          ground arith
    ]
  ]

  address_of_user-users :
      (user : User) (w : World) → (address_of_user look bridge_id user w).1.db.users ≡ w.db.users
  address_of_user-users user w = ground arith

  address_for_twice :
      (evm_address : String) (w : World) (a : String)
      → (address_for look bridge_id evm_address w).0 ≡ ok a
      → let after = (address_for look bridge_id evm_address w).1 in
        address_for look bridge_id evm_address after ≡ (ok a, after)
  address_for_twice evm_address w a h =
      elim (Option-cases (first (users_at bridge_id evm_address w.db))) [
        | inr (user, e) ↦
            let one : address_for look bridge_id evm_address w
                ≡ address_of_user look bridge_id user w =
              simp e in
            let after = (address_of_user look bridge_id user w).1 in
            let again : first (users_at bridge_id evm_address after.db) ≡ some user =
              rw (address_of_user-users user w) e in
            let two : address_for look bridge_id evm_address after
                ≡ address_of_user look bridge_id user after =
              simp again in
            rw one (two ∙ address_of_user_twice user w a (rw (← one) h))
        | inl e ↦
            let user : User = record {
              id = w.db.next_user_id;
              bridge_id = bridge_id;
              evm_address = evm_address;
            } in
            let u = (add_user bridge_id evm_address w).1 in
            let one : address_for look bridge_id evm_address w
                ≡ address_of_user look bridge_id user u =
              simp e in
            let after = (address_of_user look bridge_id user u).1 in
            let mine : ((bridge_id == bridge_id) && (evm_address == evm_address)) ≡ true =
              simp (beq_refl bridge_id, beq_refl evm_address) in
            let again : first (users_at bridge_id evm_address after.db) ≡ some user =
              rw (address_of_user-users user u) (
                first-keep_append
                  (λ (u : User). (u.bridge_id == bridge_id) && (u.evm_address == evm_address))
                  w.db.users user e mine) in
            let two : address_for look bridge_id evm_address after
                ≡ address_of_user look bridge_id user after =
              simp again in
            rw one (two ∙ address_of_user_twice user u a (rw (← one) h))
      ]

  -- When a user has got a deposit address, asking for it again returns the same address and changes
  -- nothing.
  pub generate_deposit_address_twice :
      (evm_address : String) (w : World) (a : String)
      → (generate_deposit_address look bridge_id evm_address w).0 ≡ ok a
      → let after = (generate_deposit_address look bridge_id evm_address w).1 in
        generate_deposit_address look bridge_id evm_address after ≡ (ok a, after)
  unfolding generate_deposit_address
  generate_deposit_address_twice evm_address w a h =
      elim (Result-cases (look.to_checksum_address evm_address)) [
        | inl (checksum, e) ↦ ground (arith, e, address_for_twice checksum w a)
        | inr (x, e) ↦ ground (arith, e)
      ]
