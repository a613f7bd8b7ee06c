-- ===== src/Pool/Accounts.antt =====
-- Sequences of `create_pool_account` of pool.rs.
use Prim.Native.String.{String}
use partymixrust.Prelude.{
  ◌+◌, map, ◌≤◌, ◌≡◌, refl, ap, ◌∙◌, Bool, true, false, Option, none, some, List, [], ◌∷◌, arith,
  if◌then◌else◌,
}
use partymixrust.Prelude.Words.{total}
use partymixrust.Prelude.HashMap
use partymixrust.Prelude.HashMap.{HashMap, values}
use partymixrust.ShieldedCsv.Platform.{Platform}
use partymixrust.Types.{PoolAccount}
use partymixrust.Wallet.{WalletState, primary_pool_account, account_balance, update_pool_account}
use partymixrust.Pool.{new_account, create_pool_account, clear_primary}
use partymixrust.Pool.Solvency.{held, worth, total-insert}
use partymixrust.Pool.Primary.{
  primary_count, create_pool_account-primary, create_pool_account-secondary,
}

module _ (x : Platform) where
  pub record AccountCall : Type 0 where
    pub acct_id : x.PublicKey
    pub label : String
    pub is_primary : Bool
    pub id : x.Uuid

  abbrev pub create : WalletState x → AccountCall → WalletState x × PoolAccount x
  create w c = create_pool_account x w c.acct_id c.label c.is_primary c.id

  unfoldable pub create_all : WalletState x → List AccountCall → WalletState x
  create_all w [] = w
  create_all w (c ∷ cs) = create_all (create w c).0 cs

  -- Each identifier is new when it is used.
  abbrev pub IsFresh : WalletState x → List AccountCall → Type 0
  IsFresh w [] = Unit
  IsFresh w (c ∷ cs) =
      (HashMap.get x.uuid_discrete c.id w.pool_accounts ≡ none) × IsFresh (create w c).0 cs

  -- The primary account that was made last, or the one before.
  unfoldable pub latest :
      WalletState x → Option (PoolAccount x) → List AccountCall → Option (PoolAccount x)
  latest w before [] = before
  latest w before (c ∷ cs) =
      let (w', a) = create w c in latest w' (if c.is_primary then some a else before) cs

  insert-count_secondary :
      (a : PoolAccount x) (m : HashMap x.Uuid (PoolAccount x))
      → a.is_primary ≡ false
      → primary_count (values (HashMap.insert x.uuid_discrete a.id a m)) ≤ primary_count (values m)
  unfolding primary_count HashMap.insert
  insert-count_secondary a [] h = ground arith
  insert-count_secondary a (e ∷ m) h = elim (x.uuid_discrete e.0 a.id) [
    | yes p ↦ ground arith
    | no p ↦ ground (arith, insert-count_secondary a m)
  ]

  pub create-count :
      (w : WalletState x) (c : AccountCall) (primary : Bool)
      → c.is_primary ≡ primary
      → primary_count (values w.pool_accounts) ≤ 1
      → primary_count (values (create w c).0.pool_accounts) ≤ 1
  unfolding create_pool_account
  create-count w c true e h =
      rw e (omega (arith, (create_pool_account-primary x w c.acct_id c.label c.id).1))
  create-count w c false e h = rw e (
      omega (
        arith,
        insert-count_secondary (new_account x w c.acct_id c.label false c.id) w.pool_accounts refl,
      ))

  create-primary :
      (w : WalletState x) (c : AccountCall) (primary : Bool)
      → c.is_primary ≡ primary
      → HashMap.get x.uuid_discrete c.id w.pool_accounts ≡ none
      → primary_pool_account x (create w c).0
        ≡ (if c.is_primary then some (create w c).1 else primary_pool_account x w)
  create-primary w c true e new = rw e (create_pool_account-primary x w c.acct_id c.label c.id).0
  create-primary w c false e new =
      rw e (create_pool_account-secondary x w c.acct_id c.label c.id new)

  -- On a wallet with at most one account that is marked primary, after any sequence of account
  -- creations under new identifiers at most one is marked, and the wallet's primary account is
  -- the one that was created as primary last, or the one before if none was.
  pub create_all-primary :
      (w : WalletState x) (cs : List AccountCall)
      → IsFresh w cs
      → primary_count (values w.pool_accounts) ≤ 1
      → (primary_pool_account x (create_all w cs) ≡ latest w (primary_pool_account x w) cs)
        × (primary_count (values (create_all w cs).pool_accounts) ≤ 1)
  unfolding create_all latest
  create_all-primary w [] fresh h = (refl, h)
  create_all-primary w (c ∷ cs) (new, fresh) h =
      let (found, one) =
        create_all-primary (create w c).0 cs fresh (create-count w c c.is_primary refl h) in
      (found ∙ ap (λ o. latest (create w c).0 o cs) (create-primary w c c.is_primary refl new), one)

  clear_primary-total :
      (m : HashMap x.Uuid (PoolAccount x))
      → total (map (account_balance x) (values (clear_primary x m)))
        ≡ total (map (account_balance x) (values m))
  unfolding clear_primary total
  clear_primary-total [] = refl
  clear_primary-total (e ∷ m) = omega (arith, clear_primary-total m)

  clear_primary-worth :
      (id : x.Uuid) (m : HashMap x.Uuid (PoolAccount x))
      → worth x.uuid_discrete
          (account_balance x)
          (HashMap.get x.uuid_discrete id (clear_primary x m))
        ≡ worth x.uuid_discrete (account_balance x) (HashMap.get x.uuid_discrete id m)
  unfolding clear_primary HashMap.get
  clear_primary-worth id [] = refl
  clear_primary-worth id (e ∷ m) = ground (arith, clear_primary-worth id m)

  update_pool_account-held :
      (w : WalletState x) (a : PoolAccount x)
      → held x (update_pool_account x w a)
          + worth x.uuid_discrete
              (account_balance x)
              (HashMap.get x.uuid_discrete a.id w.pool_accounts)
        ≡ held x w + account_balance x a
  unfolding update_pool_account
  update_pool_account-held w a =
      omega (arith, total-insert x.uuid_discrete (account_balance x) a.id a w.pool_accounts)

  -- A new account holds nothing, and one whose identifier it takes is gone.
  pub create_pool_account-held :
      (w : WalletState x) (acct_id : x.PublicKey) (label : String) (is_primary : Bool) (id : x.Uuid)
      → held x (create_pool_account x w acct_id label is_primary id).0
          + worth x.uuid_discrete
              (account_balance x)
              (HashMap.get x.uuid_discrete id w.pool_accounts)
        ≡ held x w
  unfolding create_pool_account new_account
  create_pool_account-held w acct_id label true id =
      let cleared = record w { pool_accounts = clear_primary x w.pool_accounts } in
      omega (
        arith,
        update_pool_account-held cleared (new_account x w acct_id label true id),
        clear_primary-total w.pool_accounts,
        clear_primary-worth id w.pool_accounts,
      )
  create_pool_account-held w acct_id label false id =
      omega (arith, update_pool_account-held w (new_account x w acct_id label false id))

  pub create_pool_account-liabilities :
      (w : WalletState x) (acct_id : x.PublicKey) (label : String) (is_primary : Bool) (id : x.Uuid)
      → (create_pool_account x w acct_id label is_primary id).0.liabilities ≡ w.liabilities
  unfolding create_pool_account update_pool_account
  create_pool_account-liabilities w acct_id label is_primary id = ground arith
