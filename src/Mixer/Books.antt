-- ===== src/Mixer/Books.antt =====
-- The books of the mixer over any sequence of calls.
use partymixrust.Prelude.{ℕ, ◌+◌, ◌≤◌, ◌<◌, ◌≡◌, ◌↔◌, ◌∙◌, sym, List, [], ◌∷◌, arith, ok}
use partymixrust.Prelude.Words.{u64_max}
use partymixrust.ShieldedCsv.Platform.{Platform}
use partymixrust.Wallet.{WalletState}
use partymixrust.Wallet.Ledger.{IsLedger, IsLedger-mono}
use partymixrust.Crypto.Pcd.{PcdBackend}
use partymixrust.Pool.{check_solvency}
use partymixrust.Pool.Solvency.{owed, held, Fits, check_solvency-verdict, verdict}
use partymixrust.Deposit.{DepositHandler}
use partymixrust.Withdrawal.{WithdrawalHandler}
use partymixrust.Mixer.{MixerCall, Tally, add, serve_call, serve_calls, offer, offered}
use partymixrust.Mixer.Calls.{Balanced, serve_call-Balanced}

module _ (x : Platform) where
  then-Balanced :
      (m n : ℕ) (w w' w'' : WalletState x) (s t : Tally)
      → Balanced x m w w' s
      → Balanced x n w' w'' t
      → Balanced x (m + n) w w'' (add s t)
  then-Balanced m n w w' w'' s t h k = record {
    holdings = omega (arith, h, k);
    debts = omega (arith, h, k);
    within = omega (arith, h, k);
  }

module _ (x : Platform) (b : PcdBackend x) (deposits : DepositHandler)
    (withdrawals : WithdrawalHandler) where
  -- On a wallet where nobody has withdrawn more than was credited, any sequence of deposits,
  -- withdrawals, consolidations and account creations whose offered coins keep the credited sum
  -- below the greatest u64 leaves such a wallet, and the books balance: what the mixer holds grew
  -- by what it credited less what consolidations took out and what accounts held whose identifier
  -- a new account took, and what it owes grew by what it credited less what it reserved, amounts
  -- and fees.
  pub serve_calls-Balanced :
      (cs : List (MixerCall x b)) (bound : ℕ) (w : WalletState x)
      → IsLedger x bound w
      → bound + offered x b cs < u64_max
      → let (w', t) = serve_calls x b deposits withdrawals w cs in
        IsLedger x (bound + offered x b cs) w' × Balanced x (offered x b cs) w w' t
  unfolding serve_calls offered
  serve_calls-Balanced [] bound w h fits = (
    IsLedger-mono x bound (bound + 0) w (omega arith) h,
    record { holdings = omega arith; debts = omega arith; within = omega arith },
  )
  serve_calls-Balanced (c ∷ cs) bound w h fits =
      let r = serve_call x b deposits withdrawals w c in
      let (ledger, one) = serve_call-Balanced x b deposits withdrawals bound w h c (omega arith) in
      let (ledger', rest) =
        serve_calls-Balanced cs (bound + offer x b c) r.0 ledger (omega arith) in
      (
        IsLedger-mono x _ _ _ (omega arith) ledger',
        then-Balanced x (offer x b c) (offered x b cs) w r.0 _ r.1 _ one rest,
      )

  verdict_iff : (owes holds : ℕ) → (verdict x owes holds ≡ ok tt) ↔ (owes ≤ holds)
  verdict_iff owes holds = (λ h. ground arith, λ h. ground arith)

  -- On a wallet where nobody has withdrawn more than was credited, after any sequence of
  -- deposits, withdrawals, consolidations and account creations whose offered coins keep the
  -- credited sum below the greatest u64, and what is held and what is owed within u64,
  -- check_solvency answers Ok exactly when what was owed before, what consolidations took out and
  -- what accounts held whose identifier a new account took are together at most what was held
  -- before and what was reserved.
  pub check_solvency-serve_calls :
      (cs : List (MixerCall x b)) (bound : ℕ) (w : WalletState x)
      → IsLedger x bound w
      → bound + offered x b cs < u64_max
      → held x w + offered x b cs ≤ u64_max
      → owed x w + offered x b cs ≤ u64_max
      → let (w', t) = serve_calls x b deposits withdrawals w cs in
        (check_solvency x w' ≡ ok tt)
        ↔ (owed x w + t.consolidated + t.replaced ≤ held x w + t.reserved)
  check_solvency-serve_calls cs bound w h fits room room' =
      let r = serve_calls x b deposits withdrawals w cs in
      let w' = r.0 in
      let books = (serve_calls-Balanced cs bound w h fits).1 in
      let fits' : Fits x w' = record {
        owed_fits = omega (arith, books);
        held_fits = omega (arith, books);
      } in
      let verdict-w' = check_solvency-verdict x w' fits' in
      let (covered, solvent) = verdict_iff (owed x w') (held x w') in
      (
        λ e. omega (arith, books, covered (sym verdict-w' ∙ e)),
        λ le. verdict-w' ∙ solvent (omega (arith, books)),
      )
