-- ===== src/Pool/Primary.antt =====
-- The primary account of pool.rs.
use Prim.Native.String.{String}
use partymixrust.Prelude.{
  ℕ, ◌+◌, ◌≡◌, refl, true, false, none, some, List, [], ◌∷◌, arith, if◌then◌else◌,
}
use partymixrust.Prelude.HashMap
use partymixrust.Prelude.HashMap.{HashMap, values}
use partymixrust.ShieldedCsv.Platform.{Platform}
use partymixrust.Types.{PoolAccount}
use partymixrust.Wallet.{WalletState, find_primary, primary_pool_account}
use partymixrust.Pool.{clear_primary, new_account, create_pool_account}

module _ {x : Platform} where
  -- How many accounts are marked primary.
  unfoldable pub primary_count : List (PoolAccount x) → ℕ
  primary_count [] = 0
  primary_count (a ∷ as') = (if a.is_primary then 1 else 0) + primary_count as'

module _ (x : Platform) where
  module _ (a : PoolAccount x) (marked : a.is_primary ≡ true) where
    clear_primary-count :
        (m : HashMap x.Uuid (PoolAccount x)) → primary_count (values (clear_primary x m)) ≡ 0
    unfolding clear_primary primary_count
    clear_primary-count [] = refl
    clear_primary-count (e ∷ m) = omega (arith, clear_primary-count m)

    insert-count :
        (m : HashMap x.Uuid (PoolAccount x))
        → primary_count (values (HashMap.insert x.uuid_discrete a.id a (clear_primary x m))) ≡ 1
    unfolding clear_primary primary_count HashMap.insert
    insert-count [] = ground arith
    insert-count (e ∷ m) = elim (x.uuid_discrete e.0 a.id) [
      | yes p ↦ ground (arith, clear_primary-count m)
      | no p ↦ ground (arith, insert-count m)
    ]

    find-insert :
        (m : HashMap x.Uuid (PoolAccount x))
        → find_primary (values (HashMap.insert x.uuid_discrete a.id a (clear_primary x m))) ≡ some a
    unfolding clear_primary find_primary HashMap.insert
    find-insert [] = ground arith
    find-insert (e ∷ m) = elim (x.uuid_discrete e.0 a.id) [
      | yes p ↦ ground arith
      | no p ↦ ground (arith, find-insert m)
    ]

  module _ (w : WalletState x) (acct_id : x.PublicKey) (label : String) (id : x.Uuid) where
    -- A new primary account is the one that the wallet finds, and the only one that is marked
    -- primary, whatever accounts the wallet has.
    pub create_pool_account-primary :
        let (w', a) = create_pool_account x w acct_id label true id in
        (primary_pool_account x w' ≡ some a) × (primary_count (values w'.pool_accounts) ≡ 1)
    unfolding create_pool_account primary_pool_account
    create_pool_account-primary =
        let a = new_account x w acct_id label true id in
        (find-insert a refl w.pool_accounts, insert-count a refl w.pool_accounts)

  find-insert_secondary :
      (a : PoolAccount x) (m : HashMap x.Uuid (PoolAccount x))
      → a.is_primary ≡ false
      → HashMap.get x.uuid_discrete a.id m ≡ none
      → find_primary (values (HashMap.insert x.uuid_discrete a.id a m)) ≡ find_primary (values m)
  unfolding find_primary HashMap.insert HashMap.get
  find-insert_secondary a [] h new = ground arith
  find-insert_secondary a (e ∷ m) h new = elim (x.uuid_discrete e.0 a.id) [
    | yes p ↦ absurd (ground arith)
    | no p ↦ ground (arith, find-insert_secondary a m)
  ]

  -- A new account under a new identifier that is not primary leaves the wallet's primary account
  -- as it is.
  pub create_pool_account-secondary :
      (w : WalletState x) (acct_id : x.PublicKey) (label : String) (id : x.Uuid)
      → HashMap.get x.uuid_discrete id w.pool_accounts ≡ none
      → primary_pool_account x (create_pool_account x w acct_id label false id).0
        ≡ primary_pool_account x w
  unfolding create_pool_account primary_pool_account
  create_pool_account-secondary w acct_id label id new =
      find-insert_secondary (new_account x w acct_id label false id) w.pool_accounts refl new
