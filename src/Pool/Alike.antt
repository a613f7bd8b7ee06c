-- ===== src/Pool/Alike.antt =====
-- The operations of pool.rs on two wallets whose maps are gone through in different orders.
use Prim.Native.String.{String}
use mathlib.Core.List.{Permᴰ}
use partymixrust.Prelude.HashMap.{values}
use partymixrust.Pool.Primary.{primary_count}
use partymixrust.Prelude.{
  subst, ℕ, ◌≤◌, ◌≡◌, refl, ◌∙◌, inl, inr, Bool, true, false, Bool-cases, Bytes,
}
use partymixrust.Prelude.HashMap
use partymixrust.Prelude.Words.{saturating_add}
use partymixrust.ShieldedCsv.Platform.{Platform}
use partymixrust.Types.{PoolAccount}
use partymixrust.Wallet.{WalletState, debit_user, update_pool_account}
use partymixrust.Wallet.Insertions.{insert-IsMap, insert-Permᴰ, each, each-IsMap, each-Permᴰ}
use partymixrust.Wallet.Alike.{
  Alike, AlikeWith, get-Alike, primary-Alike, debit_user-Alike, credit_user-Alike,
}
use partymixrust.Wallet.Order.{IsMap, check_solvency-SameEntries}
use partymixrust.Pool.{
  credit_deposit, reserve_withdrawal, create_pool_account, new_account, clear_primary,
  primary_account, check_solvency,
}
use partymixrust.Pool.Accounts.{create-count}

module _ (x : Platform) (w w' : WalletState x) (h : Alike x w w') where
  pub credit_deposit-Alike :
      (user : Bytes) (amount : ℕ)
      → Alike x (credit_deposit x w user amount) (credit_deposit x w' user amount)
  unfolding credit_deposit
  credit_deposit-Alike user amount = credit_user-Alike x w w' h user amount

  pub reserve_withdrawal-Alike :
      (user : Bytes) (amount fee : ℕ)
      → AlikeWith x
          (reserve_withdrawal x w user amount fee)
          (reserve_withdrawal x w' user amount fee)
  unfolding reserve_withdrawal
  reserve_withdrawal-Alike user amount fee =
      let needed = saturating_add amount fee in
      let (after, same) = debit_user-Alike x w w' h user needed in
      elim (Bool-cases (debit_user x w' user needed).1) [
        | inl paid ↦ rw (same ∙ paid, paid) (after, refl)
        | inr refused ↦ rw (same ∙ refused, refused) (rw (get-Alike x _ _ after user) (after, refl))
      ]

  pub primary_account-Alike : primary_account x w ≡ primary_account x w'
  unfolding primary_account
  primary_account-Alike = rw (primary_account, primary-Alike x w w' h) refl

  pub check_solvency-Alike : check_solvency x w ≡ check_solvency x w'
  check_solvency-Alike = (check_solvency-SameEntries x w w' h.entries h.users h.one).0

  set_account-Alike :
      (m m' : HashMap.HashMap x.Uuid (PoolAccount x)) (a : PoolAccount x)
      → Permᴰ m m'
      → IsMap m
      → primary_count (values (HashMap.insert x.uuid_discrete a.id a m)) ≤ 1
      → Alike x
          (record w { pool_accounts = HashMap.insert x.uuid_discrete a.id a m })
          (record w' { pool_accounts = HashMap.insert x.uuid_discrete a.id a m' })
  set_account-Alike m m' a r ids one = record {
    entries = record {
      liabilities = h.entries.liabilities;
      pool_accounts = insert-Permᴰ x.uuid_discrete a.id a r ids;
      coins = h.entries.coins;
    };
    history = h.history;
    users = h.users;
    ids = insert-IsMap x.uuid_discrete a.id a m ids;
    one = one;
  }

  module _ (acct_id : x.PublicKey) (label : String) where
    new_account-Alike :
        (is_primary : Bool) (id : x.Uuid)
        → new_account x w acct_id label is_primary id ≡ new_account x w' acct_id label is_primary id
    unfolding new_account
    new_account-Alike is_primary id = rw h.history refl

    create-one :
        (is_primary : Bool) (id : x.Uuid)
        → primary_count
            (values (create_pool_account x w acct_id label is_primary id).0.pool_accounts)
          ≤ 1
    create-one is_primary id =
        create-count x w
          (record { acct_id = acct_id; label = label; is_primary = is_primary; id = id }) is_primary
          refl h.one

    pub create_pool_account-Alike :
        (is_primary : Bool) (id : x.Uuid)
        → AlikeWith x
            (create_pool_account x w acct_id label is_primary id)
            (create_pool_account x w' acct_id label is_primary id)
    unfolding create_pool_account update_pool_account clear_primary
    create_pool_account-Alike true id =
        let unmark : PoolAccount x → PoolAccount x = λ a. record a { is_primary = false } in
        let same = new_account-Alike true id in
        (
          subst
              (λ (a : PoolAccount x).
                Alike x (create_pool_account x w acct_id label true id).0 (record w' {
                  pool_accounts =
                      HashMap.insert x.uuid_discrete a.id a (clear_primary x w'.pool_accounts);
                }))
              same
              (set_account-Alike (each unmark w.pool_accounts) (each unmark w'.pool_accounts) _
                (each-Permᴰ unmark h.entries.pool_accounts)
                (each-IsMap unmark w.pool_accounts h.ids) (create-one true id)),
          same,
        )
    create_pool_account-Alike false id =
        let same = new_account-Alike false id in
        (
          subst
              (λ (a : PoolAccount x).
                Alike x (create_pool_account x w acct_id label false id).0 (record w' {
                  pool_accounts = HashMap.insert x.uuid_discrete a.id a w'.pool_accounts;
                }))
              same
              (set_account-Alike w.pool_accounts w'.pool_accounts _ h.entries.pool_accounts h.ids
                (create-one false id)),
          same,
        )
