-- ===== src/Pool/Solvency.antt =====
-- The accounting of pool.rs and wallet_state.rs in sums without overflow.
use partymixrust.Prelude.{
  ltb, if◌then◌else◌, ℕ, ◌+◌, ◌≤◌, ◌<◌, ◌≡◌, refl, ap, subst, true, inl, inr, Option-cases,
  Bool-cases, Option, none, some, [], ◌∷◌, map, arith, Bytes, bytes_discrete, Result, ok, err,
}
use partymixrust.Prelude.Words.{u64_max, u64_mod, saturating_add, total, wrapping_sum-eq-total}
use partymixrust.Prelude.HashMap
use partymixrust.Prelude.HashMap.{HashMap, values}
use partymixrust.ShieldedCsv.Platform.{Platform}
use partymixrust.Types.{LiabilityEntry, available, PoolCoin}
use partymixrust.Wallet.{
  WalletState, entry_or_new, credit_user, debit_user, add_unspent_coin, total_liabilities,
  total_unspent_pool_value, coin_amount, account_balance,
}
use partymixrust.Wallet.Coins.{coins_total, coins_total-snoc}
use partymixrust.Wallet.Ledger.{IsLedger, IsSound, entry, debit_user_paid, debit_user_refused}
use partymixrust.Pool.{check_solvency, accounting_mismatch, PoolError}

module _ {K V : Type 0} (dec : Discrete K) (f : V → ℕ) where
  abbrev pub worth : Option V → ℕ
  worth none = 0
  worth (some v) = f v

  -- A new value counts in place of the old one.
  pub total-insert :
      (k : K) (v : V) (m : HashMap K V)
      → total (map f (values (HashMap.insert dec k v m))) + worth (HashMap.get dec k m)
        ≡ total (map f (values m)) + f v
  unfolding total HashMap.insert HashMap.get
  total-insert k v [] = omega arith
  total-insert k v ((j, w) ∷ m) = ground (arith, total-insert k v m)

module _ (x : Platform) where
  -- What the mixer owes its users.
  abbrev pub owed : WalletState x → ℕ
  owed w = total (map available (values w.liabilities))

  -- What the mixer's coins and pool accounts hold.
  abbrev pub held : WalletState x → ℕ
  held w = coins_total w.unspent_coins + total (map (account_balance x) (values w.pool_accounts))

  -- Both sums are `u64` values.
  pub record Fits (w : WalletState x) : Type 0 where
    pub owed_fits : owed w < u64_mod
    pub held_fits : held w < u64_mod

  pub total_liabilities-eq-owed : (w : WalletState x) → Fits w → total_liabilities x w ≡ owed w
  unfolding total_liabilities
  total_liabilities-eq-owed w h =
      wrapping_sum-eq-total (map available (values w.liabilities)) h.owed_fits

  pub total_unspent_pool_value-eq-held :
      (w : WalletState x) → Fits w → total_unspent_pool_value x w ≡ held w
  unfolding total_unspent_pool_value
  total_unspent_pool_value-eq-held w h = omega (
    arith,
    h.held_fits,
    wrapping_sum-eq-total (map (coin_amount x) w.unspent_coins) (omega (arith, h.held_fits)),
    wrapping_sum-eq-total (map (account_balance x) (values w.pool_accounts))
        (omega (arith, h.held_fits)),
  )

  -- The answer of `check_solvency` for sums that fit: the mixer owes at most what it holds.
  abbrev pub verdict : ℕ → ℕ → Result PoolError Unit
  verdict owes holds = if ltb holds owes then err (accounting_mismatch owes holds) else ok tt

  pub verdict_short :
      (owes holds : ℕ) → holds < owes → verdict owes holds ≡ err (accounting_mismatch owes holds)
  verdict_short owes holds h = ground arith

  -- Where the debts and the holdings of a wallet fit in u64, check_solvency compares their exact
  -- sums: Ok when the mixer owes at most what it holds, and otherwise a mismatch that names both.
  pub check_solvency-verdict :
      (w : WalletState x) → Fits w → check_solvency x w ≡ verdict (owed w) (held w)
  unfolding check_solvency
  check_solvency-verdict w h =
      rw (total_liabilities-eq-owed w h, total_unspent_pool_value-eq-held w h)

  available_credited :
      (bound : ℕ) (u : Bytes) (amount : ℕ) (o : Option LiabilityEntry)
      → IsSound x bound o
      → bound + amount ≤ u64_max
      → available (record (entry_or_new u o) {
        credited = saturating_add (entry_or_new u o).credited amount;
      })
        ≡ worth bytes_discrete available o + amount
  unfolding available
  available_credited bound u amount none h fits = ground arith
  available_credited bound u amount (some e) h fits = ground arith

  -- On a sound wallet, a credit that stays within u64 raises what the mixer owes by exactly the
  -- amount.
  pub owed-credit_user :
      (bound : ℕ) (w : WalletState x) (u : Bytes) (amount : ℕ)
      → IsLedger x bound w
      → bound + amount ≤ u64_max
      → owed (credit_user x w u amount) ≡ owed w + amount
  unfolding credit_user
  owed-credit_user bound w u amount h fits = omega (
    arith,
    total-insert bytes_discrete available u _ w.liabilities,
    available_credited bound u amount (entry x w u) (h.sound u) fits,
  )

  available_paid :
      (bound amount : ℕ) (e : LiabilityEntry)
      → IsSound x bound (some e)
      → bound ≤ u64_max
      → amount ≤ available e
      → available (record e { withdrawn = saturating_add e.withdrawn amount }) + amount
        ≡ available e
  unfolding available
  available_paid bound amount e h fits covered = ground arith

  -- On a sound wallet, a debit that goes through lowers what the mixer owes by exactly the
  -- amount.
  pub owed-debit_user :
      (bound : ℕ) (w : WalletState x) (u : Bytes) (amount : ℕ)
      → IsLedger x bound w
      → bound ≤ u64_max
      → (debit_user x w u amount).1 ≡ true
      → owed (debit_user x w u amount).0 + amount ≡ owed w
  owed-debit_user bound w u amount h fits done = elim (Option-cases (entry x w u)) [
    | inl absent ↦ absurd (ground (arith, debit_user_refused x w u amount))
    | inr (e, found) ↦
        let covered : amount ≤ available e = ground (arith, debit_user_refused x w u amount) in
        rw (debit_user_paid x w u amount e found covered) (
          omega (
            arith,
            total-insert bytes_discrete available u
                (record e { withdrawn = saturating_add e.withdrawn amount }) w.liabilities,
            available_paid bound amount e (subst (IsSound x bound) found (h.sound u)) fits covered,
            ap (worth bytes_discrete available) found,
          ))
  ]

  pub held-credit_user :
      (w : WalletState x) (u : Bytes) (amount : ℕ) → held (credit_user x w u amount) ≡ held w
  unfolding credit_user
  held-credit_user w u amount = refl

  pub held-add_unspent_coin :
      (w : WalletState x) (c : PoolCoin x)
      → held (add_unspent_coin x w c) ≡ held w + coin_amount x c
  unfolding add_unspent_coin
  held-add_unspent_coin w c = omega (arith, coins_total-snoc w.unspent_coins c)

  pub held-debit_user :
      (w : WalletState x) (u : Bytes) (amount : ℕ) → held (debit_user x w u amount).0 ≡ held w
  unfolding debit_user
  held-debit_user w u amount = elim (Option-cases (entry x w u)) [
    | inl absent ↦ rw (absent, debit_user)
    | inr (e, found) ↦ elim (Bool-cases (ltb (available e) amount)) [
      | inl short ↦ ground arith
      | inr enough ↦ ground arith
    ]
  ]
