-- ===== src/Wallet/Trace.antt =====
-- Any sequence of credits and debits of wallet_state.rs, against the balances of `Ledger`.
use partymixrust.Prelude.{ℕ, ◌+◌, ◌≤◌, ◌≡◌, refl, ap₂, subst, Bool, List, [], ◌∷◌, arith, Bytes}
use partymixrust.Prelude.Words.{u64_max}
use partymixrust.ShieldedCsv.Platform.{Platform}
use partymixrust.Wallet.{WalletState, credit_user, debit_user}
use partymixrust.Wallet.Ledger.{
  Accounts, credited, debited, accounts, IsLedger, credit_user-IsLedger, accounts-credit_user,
  debit_user-IsLedger, accounts-debit_user,
}

pub data LedgerCall : Type 0 where
  credit : Bytes → ℕ → LedgerCall
  debit : Bytes → ℕ → LedgerCall

-- The sum of what the calls credit.
unfoldable pub credits : List LedgerCall → ℕ
credits [] = 0
credits (credit u amount ∷ cs) = amount + credits cs
credits (debit u amount ∷ cs) = credits cs

-- The calls on plain balances, and which debits went through.
unfoldable pub spec_run : Accounts → List LedgerCall → Accounts × List Bool
spec_run f [] = (f, [])
spec_run f (credit u amount ∷ cs) = spec_run (credited u amount f) cs
spec_run f (debit u amount ∷ cs) =
    let (f', done) = debited u amount f in let (f'', rest) = spec_run f' cs in (f'', done ∷ rest)

module _ (x : Platform) where
  -- The calls on the wallet.
  unfoldable pub run : WalletState x → List LedgerCall → WalletState x × List Bool
  run w [] = (w, [])
  run w (credit u amount ∷ cs) = run (credit_user x w u amount) cs
  run w (debit u amount ∷ cs) =
      let (w', done) = debit_user x w u amount in let (w'', rest) = run w' cs in (w'', done ∷ rest)

  -- The wallet shows the balances and the answers of the plain accounts, and is a ledger still.
  pub record Refines (bound : ℕ) (r : WalletState x × List Bool) (s : Accounts × List Bool)
      : Type 0 where
    pub ledger : IsLedger x bound r.0
    pub same_accounts : accounts x r.0 ≡ s.0
    pub same_answers : r.1 ≡ s.1

  -- Any sequence of credit_user and debit_user calls on a sound wallet, whose credits do not
  -- exceed u64, leaves the balances and gives the answers of the same calls on plain accounts,
  -- and nobody has withdrawn more than was credited.
  pub run-Refines :
      (cs : List LedgerCall) (bound : ℕ) (w : WalletState x)
      → IsLedger x bound w
      → bound + credits cs ≤ u64_max
      → Refines (bound + credits cs) (run w cs) (spec_run (accounts x w) cs)
  unfolding run spec_run credits
  run-Refines [] bound w h fits =
      let e : bound ≡ bound + 0 = omega arith in
      record { ledger = subst (λ n. IsLedger x n w) e h; same_accounts = refl; same_answers = refl }
  run-Refines (credit u amount ∷ cs) bound w h fits =
      let room : bound + amount ≤ u64_max = omega arith in
      let e : bound + amount + credits cs ≡ bound + (amount + credits cs) = omega arith in
      subst
        (λ n.
          Refines n (run (credit_user x w u amount) cs)
            (spec_run (credited u amount (accounts x w)) cs))
        e
        (subst
          (λ f.
            Refines (bound + amount + credits cs) (run (credit_user x w u amount) cs)
              (spec_run f cs))
          (accounts-credit_user x bound w u amount h room)
          (run-Refines cs (bound + amount) (credit_user x w u amount)
            (credit_user-IsLedger x bound w u amount h room) (omega arith)))
  run-Refines (debit u amount ∷ cs) bound w h fits =
      let room : bound ≤ u64_max = omega arith in
      let (w', done) = debit_user x w u amount in
      let (next_accounts, answer) = accounts-debit_user x bound w u amount h room in
      let rest =
        subst (λ f. Refines (bound + credits cs) (run w' cs) (spec_run f cs)) next_accounts
          (run-Refines cs bound w' (debit_user-IsLedger x bound w u amount h room) fits) in
      record {
        ledger = rest.ledger;
        same_accounts = rest.same_accounts;
        same_answers = ap₂ ◌∷◌ answer rest.same_answers;
      }
