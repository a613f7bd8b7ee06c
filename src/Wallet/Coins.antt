-- ===== src/Wallet/Coins.antt =====
-- The unspent coins of wallet_state.rs.
use partymixrust.Prelude.{
  ℕ, ◌+◌, ◌≡◌, ◌≢◌, refl, ap, inl, inr, Option-cases, Option, none, some, List, [], ◌∷◌, ◌++◌, map,
  arith, All, bytes_discrete,
}
use partymixrust.Prelude.Words.{total}
use partymixrust.ShieldedCsv.Data.{CoinIdOnChain}
use partymixrust.ShieldedCsv.Platform.{Platform}
use partymixrust.ShieldedCsv.Payment.{on_chain_id}
use partymixrust.Types.{PoolCoin}
use partymixrust.Wallet.{WalletState, take_coin, remove_unspent_coin, coin_amount}

module _ {x : Platform} (id : CoinIdOnChain) where
  abbrev Other : PoolCoin x → Type 0
  Other c = on_chain_id c.coin ≢ id

  -- `c` is the first coin of `cs` with the identifier, and `rest` the others in their order.
  pub record Taken (cs : List (PoolCoin x)) (c : PoolCoin x) (rest : List (PoolCoin x))
      : Type 0 where
    pub before : List (PoolCoin x)
    pub after : List (PoolCoin x)
    pub coins : cs ≡ before ++ c ∷ after
    pub others : rest ≡ before ++ after
    pub found : on_chain_id c.coin ≡ id
    pub first : All Other before

  take_coin-Taken :
      (cs : List (PoolCoin x)) (c : PoolCoin x) (rest : List (PoolCoin x))
      → take_coin id cs ≡ some (c, rest)
      → Taken cs c rest
  unfolding take_coin
  take_coin-Taken [] c rest h = absurd (ground arith)
  take_coin-Taken (d ∷ ds) c rest h = elim (bytes_discrete (on_chain_id d.coin) id) [
    | yes e ↦ record {
      before = [];
      after = ds;
      coins = ground arith;
      others = ground arith;
      found = ground arith;
      first = tt;
    }
    | no ne ↦ elim (Option-cases (take_coin id ds)) [
      | inl absent ↦ absurd (ground arith)
      | inr ((k, ks), e) ↦
          let t = take_coin-Taken ds k ks e in
          let kc : k ≡ c = ground arith in
          record {
            before = d ∷ t.before;
            after = t.after;
            coins = ap (◌∷◌ d) (rw (← kc) t.coins);
            others = rw (← t.others) (ground arith);
            found = rw (← kc) t.found;
            first = (ne, t.first);
          }
    ]
  ]

  take_coin-none : (cs : List (PoolCoin x)) → take_coin id cs ≡ none → All Other cs
  unfolding take_coin
  take_coin-none [] h = tt
  take_coin-none (d ∷ ds) h = elim (bytes_discrete (on_chain_id d.coin) id) [
    | yes e ↦ absurd (ground arith)
    | no ne ↦ (ne, take_coin-none ds (ground arith))
  ]

module _ {x : Platform} where
  abbrev pub coins_total : List (PoolCoin x) → ℕ
  coins_total cs = total (map (coin_amount x) cs)

  coins_total-middle :
      (bs : List (PoolCoin x)) (c : PoolCoin x) (ds : List (PoolCoin x))
      → coins_total (bs ++ c ∷ ds) ≡ coin_amount x c + coins_total (bs ++ ds)
  unfolding total
  coins_total-middle [] c ds = refl
  coins_total-middle (b ∷ bs) c ds = omega (arith, coins_total-middle bs c ds)

  pub coins_total-snoc :
      (bs : List (PoolCoin x)) (c : PoolCoin x)
      → coins_total (bs ++ c ∷ []) ≡ coins_total bs + coin_amount x c
  unfolding total
  coins_total-snoc [] c = omega arith
  coins_total-snoc (b ∷ bs) c = omega (arith, coins_total-snoc bs c)

  pub Taken-total :
      (id : CoinIdOnChain) (cs : List (PoolCoin x)) (c : PoolCoin x) (rest : List (PoolCoin x))
      → Taken id cs c rest
      → coins_total cs ≡ coin_amount x c + coins_total rest
  Taken-total id cs c rest t = rw (t.coins, t.others) (coins_total-middle t.before c t.after)

module _ (x : Platform) (w : WalletState x) (id : CoinIdOnChain) where
  -- How a removal ends: the first coin with the identifier comes out and the others stay, or there
  -- is none and the wallet stays.
  abbrev pub Removal : WalletState x × Option (PoolCoin x) → Type 0
  Removal (w', none) = (w' ≡ w) × All (λ c. on_chain_id c.coin ≢ id) w.unspent_coins
  Removal (w', some c) =
      (w' ≡ record w { unspent_coins = w'.unspent_coins })
      × Taken id w.unspent_coins c w'.unspent_coins

  -- Removing a coin takes out the first unspent coin with the identifier, keeps the others in
  -- their order and the rest of the wallet as it is, or finds none and changes nothing.
  pub remove_unspent_coin-Removal : Removal (remove_unspent_coin x w id)
  unfolding remove_unspent_coin
  remove_unspent_coin-Removal = elim (Option-cases (take_coin id w.unspent_coins)) [
    | inl absent ↦ rw (absent, remove_unspent_coin) (refl, take_coin-none id w.unspent_coins absent)
    | inr ((c, rest), e) ↦
        rw (e, remove_unspent_coin) (refl, take_coin-Taken id w.unspent_coins c rest e)
  ]
