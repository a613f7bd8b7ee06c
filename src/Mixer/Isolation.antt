-- ===== src/Mixer/Isolation.antt =====
-- The balance of one user, whatever the other users do.
use partymixrust.Prelude.{
  Bool-cases, inl, inr, ℕ, ◌+◌, ◌≤◌, ◌<◌, ◌≡◌, ◌≢◌, refl, true, false, Bool, ap, ap₂, sym, ◌∙◌,
  Option, List, [], ◌∷◌, ◌++◌, arith, Bytes, bytes_discrete, same, if◌then◌else◌, Result, ok, err,
}
use partymixrust.Prelude.Words.{u64_max, saturating_add}
use partymixrust.ShieldedCsv.Platform.{Platform}
use partymixrust.Wallet.{WalletState}
use partymixrust.Wallet.Ledger.{
  Accounts, IsLedger, accounts, debited, pay, or_zero, entry, IsLedger-mono, accounts-debit_user,
  debit_user_refused,
}
use partymixrust.Wallet.Own.{own_ledger, pay_answer, spec_run-own_ledger}
use partymixrust.Wallet.Trace.{LedgerCall, spec_run}
use partymixrust.Crypto.Pcd.{PcdBackend}
use partymixrust.Node.{NodeError, accept_payment}
use partymixrust.Deposit.{DepositHandler}
use partymixrust.Communication.{WithdrawalRequestPayload}
use partymixrust.Pool.{insufficient_liquidity}
use partymixrust.Withdrawal.{WithdrawalHandler, WithdrawalError, pool_error, queue_withdrawal}
use partymixrust.Withdrawal.Queue.{queued_request, queue_debited, queue_refused, available-or_zero}
use partymixrust.Mixer.{
  MixerCall, deposit_call, withdraw_call, consolidate_call, account_call, serve_calls, offered,
}
use partymixrust.Types.{MixerWithdrawalRequest}
use partymixrust.Mixer.Books.{serve_calls-Balanced}
use partymixrust.Mixer.Accounts.{credit_of, ledger_calls, serve_calls-accounts}

module _ (x : Platform) (b : PcdBackend x) (u : Bytes) where
  -- The deposits and withdrawals of the user `u`.
  unfoldable pub own_calls : List (MixerCall x b) → List (MixerCall x b)
  own_calls [] = []
  own_calls (deposit_call node user payload id now ∷ cs) =
      let rest = own_calls cs in
      if same (bytes_discrete user u) then deposit_call node user payload id now ∷ rest else rest
  own_calls (withdraw_call user request id now ∷ cs) =
      let rest = own_calls cs in
      if same (bytes_discrete user u) then withdraw_call user request id now ∷ rest else rest
  own_calls (consolidate_call node id ∷ cs) = own_calls cs
  own_calls (account_call acct_id label is_primary id ∷ cs) = own_calls cs

  offered-own_calls : (cs : List (MixerCall x b)) → offered x b (own_calls cs) ≤ offered x b cs
  unfolding offered own_calls
  offered-own_calls [] = omega arith
  offered-own_calls (deposit_call node user payload id now ∷ cs) =
      ground (arith, offered-own_calls cs)
  offered-own_calls (withdraw_call user request id now ∷ cs) = ground (arith, offered-own_calls cs)
  offered-own_calls (consolidate_call node id ∷ cs) = omega (arith, offered-own_calls cs)
  offered-own_calls (account_call acct_id label is_primary id ∷ cs) =
      omega (arith, offered-own_calls cs)

  module _ (deposits : DepositHandler) (withdrawals : WithdrawalHandler) where
    credit_of_own :
        (user : Bytes) (r : Result NodeError ℕ) (ds : List LedgerCall)
        → user ≡ u
        → own_ledger u (credit_of x b deposits withdrawals user r ++ ds)
          ≡ credit_of x b deposits withdrawals user r ++ own_ledger u ds
    unfolding own_ledger
    credit_of_own user (err e) ds own = refl
    credit_of_own user (ok n) ds own = ground arith

    credit_of_other :
        (user : Bytes) (r : Result NodeError ℕ) (ds : List LedgerCall)
        → user ≢ u
        → own_ledger u (credit_of x b deposits withdrawals user r ++ ds) ≡ own_ledger u ds
    unfolding own_ledger
    credit_of_other user (err e) ds other = refl
    credit_of_other user (ok n) ds other = ground arith

    ledger_calls-own_calls :
        (cs : List (MixerCall x b))
        → own_ledger u (ledger_calls x b deposits withdrawals cs)
          ≡ ledger_calls x b deposits withdrawals (own_calls cs)
    unfolding own_ledger own_calls ledger_calls
    ledger_calls-own_calls [] = refl
    ledger_calls-own_calls (deposit_call node user payload id now ∷ cs) =
        let r =
          accept_payment x b node payload.coin payload.coin_proof deposits.mixer_acct_id
            deposits.mixer_address_rand in
        let rest = ledger_calls x b deposits withdrawals cs in
        elim (bytes_discrete user u) [
          | yes own ↦ credit_of_own user r rest own ∙ ground (arith, ledger_calls-own_calls cs)
          | no other ↦ credit_of_other user r rest other ∙ ground (arith, ledger_calls-own_calls cs)
        ]
    ledger_calls-own_calls (withdraw_call user request id now ∷ cs) = elim (bytes_discrete user u) [
      | yes own ↦ ground (arith, ledger_calls-own_calls cs)
      | no other ↦ ground (arith, ledger_calls-own_calls cs)
    ]
    ledger_calls-own_calls (consolidate_call node id ∷ cs) = ledger_calls-own_calls cs
    ledger_calls-own_calls (account_call acct_id label is_primary id ∷ cs) =
        ledger_calls-own_calls cs

    own_balance :
        (cs : List (MixerCall x b)) (bound : ℕ) (w : WalletState x)
        → IsLedger x bound w
        → bound + offered x b cs < u64_max
        → accounts x (serve_calls x b deposits withdrawals w cs).0 u
          ≡ accounts x (serve_calls x b deposits withdrawals w (own_calls cs)).0 u
    own_balance cs bound w h fits =
        let f = accounts x w in
        ap (λ (g : Accounts). g u) (serve_calls-accounts x b deposits withdrawals cs bound w h fits)
        ∙ spec_run-own_ledger u (ledger_calls x b deposits withdrawals cs) f f refl
        ∙ ap (λ ds. (spec_run f ds).0 u) (ledger_calls-own_calls cs)
        ∙ sym (
            ap (λ (g : Accounts). g u)
              (serve_calls-accounts x b deposits withdrawals (own_calls cs) bound w h
                (omega (arith, offered-own_calls cs))))

module _ (x : Platform) (self : WithdrawalHandler) (u : Bytes)
    (request : WithdrawalRequestPayload x) (id : x.Uuid) (now : x.DateTime) where
  abbrev needed : ℕ
  needed = saturating_add request.amount self.pool.config.withdrawal_service_fee

  -- The answer to a request, from the balance and from whether it pays.
  abbrev answer_at :
      WalletState x → Option ℕ → Bool → Result WithdrawalError (MixerWithdrawalRequest x)
  answer_at w o true = ok (queued_request x self w u request id now)
  answer_at w o false = err (pool_error (insufficient_liquidity needed (or_zero o)))

  queue-answer_at :
      (bound : ℕ) (w : WalletState x)
      → IsLedger x bound w
      → bound ≤ u64_max
      → (queue_withdrawal x self w u request id now).1
        ≡ answer_at w (accounts x w u) (debited u needed (accounts x w)).1
  queue-answer_at bound w h fits = elim (Bool-cases (debited u needed (accounts x w)).1) [
    | inl paid ↦
        let done = (accounts-debit_user x bound w u needed h fits).1 ∙ paid in
        ap (λ r. r.1) (queue_debited x self w u request id now needed refl done)
        ∙ ap (answer_at w (accounts x w u)) (sym paid)
    | inr refused ↦
        ap (λ r. r.1)
          (queue_refused x self w u request id now needed refl
            (debit_user_refused x w u needed refused))
        ∙ ap (λ n. err (pool_error (insufficient_liquidity needed n)))
            (available-or_zero x (entry x w u))
        ∙ ap (answer_at w (accounts x w u)) (sym refused)
  ]

  queue-same_answer :
      (bound : ℕ) (w w' : WalletState x)
      → IsLedger x bound w
      → IsLedger x bound w'
      → bound ≤ u64_max
      → accounts x w u ≡ accounts x w' u
      → (queue_withdrawal x self w u request id now).1
        ≡ (queue_withdrawal x self w' u request id now).1
  queue-same_answer bound w w' h h' fits e =
      queue-answer_at bound w h fits
      ∙ ap₂ (answer_at w) e (
          ap (λ o. (pay u needed (accounts x w) o).1) e
          ∙ pay_answer u needed (accounts x w) (accounts x w') (accounts x w' u))
      ∙ sym (queue-answer_at bound w' h' fits)

module _ (x : Platform) (b : PcdBackend x) (deposits : DepositHandler)
    (withdrawals : WithdrawalHandler) (u : Bytes) where
  -- On a wallet where nobody has withdrawn more than was credited, after any sequence of
  -- deposits, withdrawals, consolidations and account creations whose offered coins keep the
  -- credited sum below the greatest u64, a user has the balance, and gets the answer to every
  -- further withdrawal, that the user's own deposits and withdrawals in the sequence give on
  -- their own.
  pub serve_calls-own_calls :
      (cs : List (MixerCall x b)) (bound : ℕ) (w : WalletState x)
      → IsLedger x bound w
      → bound + offered x b cs < u64_max
      → let all = (serve_calls x b deposits withdrawals w cs).0 in
        let own = (serve_calls x b deposits withdrawals w (own_calls x b u cs)).0 in
        (accounts x all u ≡ accounts x own u)
        × ((request : WithdrawalRequestPayload x) (id : x.Uuid) (now : x.DateTime)
            → (queue_withdrawal x withdrawals all u request id now).1
              ≡ (queue_withdrawal x withdrawals own u request id now).1)
  serve_calls-own_calls cs bound w h fits =
      let less = offered-own_calls x b u cs in
      let same_balance = own_balance x b u deposits withdrawals cs bound w h fits in
      let (ledger, _) = serve_calls-Balanced x b deposits withdrawals cs bound w h fits in
      let (ledger', _) =
        serve_calls-Balanced x b deposits withdrawals (own_calls x b u cs) bound w h
          (omega (arith, less)) in
      (
        same_balance,
        λ request id now.
            queue-same_answer x withdrawals u request id now (bound + offered x b cs) _ _ ledger
              (IsLedger-mono x _ _ _ (omega (arith, less)) ledger') (omega arith) same_balance,
      )
