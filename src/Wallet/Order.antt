-- ===== src/Wallet/Order.antt =====
-- The maps of wallet_state.rs in another order of iteration.
use mathlib.Core.List.{Permᴰ}
use partymixrust.Prelude.{
  ℕ, ◌+◌, ◌%◌, ◌≤◌, ◌≡◌, ◌≢◌, refl, ap, ap₂, sym, ◌∙◌, subst, Bool-cases, inl, inr, ◌∷◌, map, arith,
  Bytes, bytes_discrete, All, Apart,
}
use partymixrust.Prelude.Words.{u64_mod, total, wrapping_sum, wrapping_sum-eq-mod}
use partymixrust.Prelude.HashMap
use partymixrust.Prelude.HashMap.{HashMap, values}
use partymixrust.ShieldedCsv.Platform.{Platform}
use partymixrust.Types.{PoolAccount, available}
use partymixrust.Wallet.{
  WalletState, find_primary, primary_pool_account, total_liabilities, total_unspent_pool_value,
  account_balance,
}
use partymixrust.Wallet.Ledger.{accounts, balance}
use partymixrust.Pool.{check_solvency}
use partymixrust.Pool.Primary.{primary_count}

module _ {K V : Type 0} where
  -- The keys of a map are different.
  abbrev pub IsMap : HashMap K V → Type 0
  IsMap m = Apart (λ (e d : K × V). e.0 ≢ d.0) m

  total-Permᴰ :
      (f : V → ℕ) {m m' : HashMap K V}
      → Permᴰ m m'
      → total (map f (values m)) ≡ total (map f (values m'))
  unfolding total
  total-Permᴰ f Permᴰ.nil = refl
  total-Permᴰ f (Permᴰ.cons e r) = ap₂ (λ (d : K × V) n. f d.1 + n) e (total-Permᴰ f r)
  total-Permᴰ f (Permᴰ.swap e d) =
      omega (arith, ap (λ (k : K × V). f k.1) e, ap (λ (k : K × V). f k.1) d)
  total-Permᴰ f (Permᴰ.trans r r') = total-Permᴰ f r ∙ total-Permᴰ f r'

  All-Permᴰ : (P : K × V → Type 0) {m m' : HashMap K V} → Permᴰ m m' → All P m → All P m'
  All-Permᴰ P Permᴰ.nil h = tt
  All-Permᴰ P (Permᴰ.cons e r) h = (subst P e h.0, All-Permᴰ P r h.1)
  All-Permᴰ P (Permᴰ.swap e d) h = (subst P d h.1.0, (subst P e h.0, h.1.1))
  All-Permᴰ P (Permᴰ.trans r r') h = All-Permᴰ P r' (All-Permᴰ P r h)

  pub IsMap-Permᴰ : {m m' : HashMap K V} → Permᴰ m m' → IsMap m → IsMap m'
  IsMap-Permᴰ Permᴰ.nil h = tt
  IsMap-Permᴰ (Permᴰ.cons e r) h = rw (← e) (All-Permᴰ _ r h.0, IsMap-Permᴰ r h.1)
  IsMap-Permᴰ (Permᴰ.swap {a = a} {a' = a'} {l = l} e d) h =
      subst (λ (k : K × V). IsMap (a' ∷ k ∷ l)) e
        (subst (λ (k : K × V). IsMap (k ∷ a ∷ l)) d
          ((λ same. h.0.0 (sym same), h.1.0), (h.0.1, h.1.1)))
  IsMap-Permᴰ (Permᴰ.trans r r') h = IsMap-Permᴰ r' (IsMap-Permᴰ r h)

  pub get-Permᴰ :
      (dec : Discrete K) (k : K) {m m' : HashMap K V}
      → Permᴰ m m'
      → IsMap m
      → HashMap.get dec k m ≡ HashMap.get dec k m'
  unfolding HashMap.get
  get-Permᴰ dec k Permᴰ.nil h = refl
  get-Permᴰ dec k (Permᴰ.cons e r) h = rw (e, get-Permᴰ dec k r h.1) refl
  get-Permᴰ dec k (Permᴰ.swap {a} {b} e d) h =
      rw (← e, ← d) (elim (dec a.0 k) [ yes first ↦ ground arith | no other ↦ ground arith ])
  get-Permᴰ dec k (Permᴰ.trans r r') h = get-Permᴰ dec k r h ∙ get-Permᴰ dec k r' (IsMap-Permᴰ r h)

module _ {x : Platform} where
  count-Permᴰ :
      {m m' : HashMap x.Uuid (PoolAccount x)}
      → Permᴰ m m'
      → primary_count (values m) ≡ primary_count (values m')
  unfolding primary_count
  count-Permᴰ Permᴰ.nil = refl
  count-Permᴰ (Permᴰ.cons e r) = rw (e, count-Permᴰ r) refl
  count-Permᴰ (Permᴰ.swap e d) = rw (e, d) (omega arith)
  count-Permᴰ (Permᴰ.trans r r') = count-Permᴰ r ∙ count-Permᴰ r'

  pub find-Permᴰ :
      {m m' : HashMap x.Uuid (PoolAccount x)}
      → Permᴰ m m'
      → primary_count (values m) ≤ 1
      → find_primary (values m) ≡ find_primary (values m')
  unfolding find_primary primary_count
  find-Permᴰ Permᴰ.nil h = refl
  find-Permᴰ (Permᴰ.cons e r) h = rw (e, find-Permᴰ r (omega (arith, h))) refl
  find-Permᴰ (Permᴰ.swap {a} {b} e d) h =
      rw (e, d)
        (elim (Bool-cases a.1.is_primary) [ inl first ↦ ground arith | inr other ↦ ground arith ])
  find-Permᴰ (Permᴰ.trans r r') h = find-Permᴰ r h ∙ find-Permᴰ r' (omega (arith, count-Permᴰ r, h))

module _ (x : Platform) where
  -- The maps of the two wallets have the same entries, in whatever order.
  pub record SameEntries (w w' : WalletState x) : Type 0 where
    pub liabilities : Permᴰ w.liabilities w'.liabilities
    pub pool_accounts : Permᴰ w.pool_accounts w'.pool_accounts
    pub coins : w.unspent_coins ≡ w'.unspent_coins

  sum-Permᴰ :
      {K V : Type 0} (f : V → ℕ) {m m' : HashMap K V}
      → Permᴰ m m'
      → wrapping_sum (map f (values m)) 0 ≡ wrapping_sum (map f (values m')) 0
  sum-Permᴰ f {m} {m'} r =
      wrapping_sum-eq-mod (map f (values m)) 0 (omega arith)
      ∙ ap (λ n. (0 + n) % u64_mod) (total-Permᴰ f r)
      ∙ sym (wrapping_sum-eq-mod (map f (values m')) 0 (omega arith))

  -- For two wallets with the same coins whose maps have the same entries in any two orders, where
  -- no two liabilities have one key and at most one account is marked primary, check_solvency
  -- answers the same, the primary account is the same, and every user has the same balance.
  pub check_solvency-SameEntries :
      (w w' : WalletState x)
      → SameEntries w w'
      → IsMap w.liabilities
      → primary_count (values w.pool_accounts) ≤ 1
      → (check_solvency x w ≡ check_solvency x w')
        × (primary_pool_account x w ≡ primary_pool_account x w')
        × ((u : Bytes) → accounts x w u ≡ accounts x w' u)
  unfolding check_solvency total_liabilities total_unspent_pool_value primary_pool_account
  check_solvency-SameEntries w w' r keys one = (
    rw (sum-Permᴰ available r.liabilities, sum-Permᴰ (account_balance x) r.pool_accounts, r.coins)
        refl,
    find-Permᴰ r.pool_accounts one,
    λ u. ap (balance x) (get-Permᴰ bytes_discrete u r.liabilities keys),
  )
