-- ===== src/Wallet/Alike.antt =====
-- The operations of wallet_state.rs on two wallets whose maps are gone through in different orders.
use partymixrust.Prelude.{
  ℕ, ◌≤◌, ◌≡◌, refl, ap, ◌∙◌, inl, inr, Bool-cases, Option-cases, List, ◌∷◌, [], ◌++◌, Bytes,
  bytes_discrete, ltb,
}
use partymixrust.Prelude.HashMap
use partymixrust.Prelude.HashMap.{values}
use partymixrust.ShieldedCsv.Data.{CoinIdOnChain}
use partymixrust.ShieldedCsv.Platform.{Platform}
use partymixrust.Types.{PoolCoin, LiabilityEntry, available}
use partymixrust.Wallet.{
  WalletState, primary_pool_account, credit_user, debit_user, add_unspent_coin, remove_unspent_coin,
  take_coin,
}
use partymixrust.Wallet.Insertions.{insert-IsMap, insert-Permᴰ}
use partymixrust.Wallet.Order.{IsMap, SameEntries, get-Permᴰ, find-Permᴰ}
use partymixrust.Pool.Primary.{primary_count}

module _ (x : Platform) where
  -- The wallets have the same coins and history, and maps with the same entries in whatever order.
  -- No key of a map has two entries, and at most one account is marked primary.
  pub record Alike (w w' : WalletState x) : Type 0 where
    pub entries : SameEntries x w w'
    pub history : w.nullifier_accum_history ≡ w'.nullifier_accum_history
    pub users : IsMap w.liabilities
    pub ids : IsMap w.pool_accounts
    pub one : primary_count (values w.pool_accounts) ≤ 1

  -- Alike wallets and the same answer.
  abbrev pub AlikeWith : {A : Type 0} → WalletState x × A → WalletState x × A → Type 0
  AlikeWith r r' = Alike r.0 r'.0 × (r.1 ≡ r'.1)

  module _ (w w' : WalletState x) (h : Alike w w') where
    pub get-Alike :
        (user : Bytes)
        → HashMap.get bytes_discrete user w.liabilities
          ≡ HashMap.get bytes_discrete user w'.liabilities
    get-Alike user = get-Permᴰ bytes_discrete user h.entries.liabilities h.users

    pub primary-Alike : primary_pool_account x w ≡ primary_pool_account x w'
    unfolding primary_pool_account
    primary-Alike = find-Permᴰ h.entries.pool_accounts h.one

    set_liability-Alike :
        (user : Bytes) (e : LiabilityEntry)
        → Alike
            (record w { liabilities = HashMap.insert bytes_discrete user e w.liabilities })
            (record w' { liabilities = HashMap.insert bytes_discrete user e w'.liabilities })
    set_liability-Alike user e = record {
      entries = record {
        liabilities = insert-Permᴰ bytes_discrete user e h.entries.liabilities h.users;
        pool_accounts = h.entries.pool_accounts;
        coins = h.entries.coins;
      };
      history = h.history;
      users = insert-IsMap bytes_discrete user e w.liabilities h.users;
      ids = h.ids;
      one = h.one;
    }

    pub set_coins-Alike :
        (cs : List (PoolCoin x))
        → Alike (record w { unspent_coins = cs }) (record w' { unspent_coins = cs })
    set_coins-Alike cs = record {
      entries = record {
        liabilities = h.entries.liabilities;
        pool_accounts = h.entries.pool_accounts;
        coins = refl;
      };
      history = h.history;
      users = h.users;
      ids = h.ids;
      one = h.one;
    }

    pub credit_user-Alike :
        (user : Bytes) (amount : ℕ)
        → Alike (credit_user x w user amount) (credit_user x w' user amount)
    unfolding credit_user
    credit_user-Alike user amount = rw (get-Alike user) (set_liability-Alike user _)

    pub debit_user-Alike :
        (user : Bytes) (amount : ℕ)
        → AlikeWith (debit_user x w user amount) (debit_user x w' user amount)
    unfolding debit_user
    debit_user-Alike user amount =
        elim (Option-cases (HashMap.get bytes_discrete user w'.liabilities)) [
          | inl absent ↦ rw (debit_user, get-Alike user, absent) (h, refl)
          | inr (e, found) ↦
              rw (debit_user, get-Alike user, found)
                (elim (Bool-cases (ltb (available e) amount)) [
                  | inl short ↦ rw short (h, refl)
                  | inr enough ↦ rw enough (set_liability-Alike user _, refl)
                ])
        ]

    pub add_unspent_coin-Alike :
        (c : PoolCoin x) → Alike (add_unspent_coin x w c) (add_unspent_coin x w' c)
    unfolding add_unspent_coin
    add_unspent_coin-Alike c = rw h.entries.coins (set_coins-Alike (w'.unspent_coins ++ c ∷ []))

    pub remove_unspent_coin-Alike :
        (id : CoinIdOnChain) → AlikeWith (remove_unspent_coin x w id) (remove_unspent_coin x w' id)
    unfolding remove_unspent_coin
    remove_unspent_coin-Alike id = elim (Option-cases (take_coin id w'.unspent_coins)) [
      | inl absent ↦
          rw (remove_unspent_coin, ap (take_coin id) h.entries.coins ∙ absent, absent) (h, refl)
      | inr ((c, rest), found) ↦
          rw (remove_unspent_coin, ap (take_coin id) h.entries.coins ∙ found, found)
            (set_coins-Alike rest, refl)
    ]
