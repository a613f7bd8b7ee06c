-- ===== src/Deposit/Consolidate.antt =====
-- `consolidate_into_pool` of deposit_handler.rs, and the accounting after it.
use partymixrust.Prelude.{
  ◌+◌, ◌<◌, ◌≡◌, ◌≢◌, refl, ap, ◌∙◌, inl, inr, ◌⊎◌, Option, Option-cases, some, none, arith, All,
  All-middle, subst, Result, ok, err,
}
use partymixrust.ShieldedCsv.Data.{CoinIdOnChain}
use partymixrust.ShieldedCsv.Platform.{Platform}
use partymixrust.ShieldedCsv.Payment.{on_chain_id}
use partymixrust.Types.{PoolCoin}
use partymixrust.Wallet.{WalletState, remove_unspent_coin, primary_pool_account, coin_amount}
use partymixrust.Wallet.Coins.{Taken, Removal, Taken-total, remove_unspent_coin-Removal}
use partymixrust.Crypto.Pcd.{PcdBackend}
use partymixrust.Node.{MixerNode}
use partymixrust.Pool.{no_primary_account, accounting_mismatch, primary_account, check_solvency}
use partymixrust.Pool.Solvency.{owed, held, Fits, verdict, verdict_short, check_solvency-verdict}
use partymixrust.Deposit.{
  DepositHandler, DepositError, invalid_proof, pool_error, prepare_consolidation, after_removal,
  consolidate_into_pool,
}

module _ (x : Platform) (b : PcdBackend x) (self : DepositHandler) (node : MixerNode x b)
    (wallet : WalletState x) (id : CoinIdOnChain) where
  -- No coin has the identifier, and nothing happens.
  pub record Unknown (r : WalletState x × Result DepositError Unit) : Type 0 where
    pub same : r.0 ≡ wallet
    pub refused : r.1 ≡ err invalid_proof
    pub absent : All (λ (c : PoolCoin x). on_chain_id c.coin ≢ id) wallet.unspent_coins

  -- The first coin with the identifier leaves the wallet, and nothing else changes.
  pub record TakenOut (r : WalletState x × Result DepositError Unit) : Type 0 where
    pub coin : PoolCoin x
    pub taken : Taken id wallet.unspent_coins coin r.0.unspent_coins
    pub lost : held x wallet ≡ coin_amount x coin + held x r.0
    pub still_owed : owed x r.0 ≡ owed x wallet
    pub answer : (r.1 ≡ ok tt) ⊎ (r.1 ≡ err (pool_error no_primary_account))

  prepare_consolidation-cases :
      (c : PoolCoin x) (w : WalletState x)
      → (prepare_consolidation x b self node c (primary_account x w) ≡ ok tt)
        ⊎ (prepare_consolidation x b self node c (primary_account x w)
            ≡ err (pool_error no_primary_account))
  unfolding prepare_consolidation primary_account
  prepare_consolidation-cases c w = elim (Option-cases (primary_pool_account x w)) [
    | inl missing ↦ inr (ground arith)
    | inr (a, found) ↦ inl (ground arith)
  ]

  after_removal-cases :
      (r : WalletState x × Option (PoolCoin x))
      → Removal x wallet id r
      → Unknown (after_removal x b self node r) ⊎ TakenOut (after_removal x b self node r)
  unfolding after_removal
  after_removal-cases (w', none) h = inl (record { same = h.0; refused = refl; absent = h.1 })
  after_removal-cases (w', some c) h =
      let e = ap (held x) h.0 in
      inr (record {
        coin = c;
        taken = h.1;
        lost = omega (arith, Taken-total id wallet.unspent_coins c w'.unspent_coins h.1, e);
        still_owed = ap (owed x) h.0;
        answer = prepare_consolidation-cases c w';
      })

  -- A consolidation either finds no coin with the identifier, changes nothing and answers
  -- InvalidProof, or takes the first such coin out of the wallet: what the mixer holds falls by
  -- that coin's amount and nothing is credited, what it owes stays, and the answer is Ok or that
  -- there is no primary account.
  pub consolidate_into_pool-cases :
      Unknown (consolidate_into_pool x b self node wallet id)
      ⊎ TakenOut (consolidate_into_pool x b self node wallet id)
  unfolding consolidate_into_pool
  consolidate_into_pool-cases =
      after_removal-cases (remove_unspent_coin x wallet id)
        (remove_unspent_coin-Removal x wallet id)

  -- Where the mixer holds exactly what it owes, both sums fit in u64 and every unspent coin is
  -- worth something, a consolidation of a coin that is there makes check_solvency report an
  -- accounting mismatch.
  pub consolidate_into_pool-verdict :
      Fits x wallet
      → held x wallet ≡ owed x wallet
      → All (λ c. 0 < coin_amount x c) wallet.unspent_coins
      → (consolidate_into_pool x b self node wallet id).1 ≢ err invalid_proof
      → let w' = (consolidate_into_pool x b self node wallet id).0 in
        check_solvency x w' ≡ err (accounting_mismatch (owed x wallet) (held x w'))
  consolidate_into_pool-verdict fits even worth known = elim consolidate_into_pool-cases [
    | inl unknown ↦ absurd (known unknown.refused)
    | inr t ↦
        let w' = (consolidate_into_pool x b self node wallet id).0 in
        let value : 0 < coin_amount x t.coin =
          All-middle (λ c. 0 < coin_amount x c) t.taken.before t.coin t.taken.after
            (subst (All (λ c. 0 < coin_amount x c)) t.taken.coins worth) in
        let fits' : Fits x w' = record {
          owed_fits = omega (arith, t.still_owed, fits.owed_fits);
          held_fits = omega (arith, t.lost, fits.held_fits);
        } in
        check_solvency-verdict x w' fits'
        ∙ ap (λ n. verdict x n (held x w')) t.still_owed
        ∙ verdict_short x (owed x wallet) (held x w') (omega (arith, t.lost, even, value))
  ]
