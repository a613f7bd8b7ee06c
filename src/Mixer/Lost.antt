-- ===== src/Mixer/Lost.antt =====
-- What becomes of a withdrawal once it is debited, where the backend is sound.
use partymixrust.Prelude.{
  ℕ, ◌+◌, ◌-◌, ◌≤◌, ◌<◌, ◌≡◌, ◌≢◌, refl, ap, sym, ◌∙◌, inl, inr, Bool-cases, Option, none, some,
  List, [], ◌∷◌, ◌++◌, Result, arith, All, Bytes, bytes_discrete, ltb, ok, err,
}
use partymixrust.Prelude.Words.{u64_max}
use partymixrust.ShieldedCsv.Platform.{Platform}
use partymixrust.ShieldedCsv.Primitives.{Primitives}
use partymixrust.Wallet.{WalletState}
use partymixrust.Wallet.Ledger.{Accounts, IsLedger, accounts, credited, debited, pay, or_zero}
use partymixrust.Wallet.Own.{pay_other}
use partymixrust.Wallet.Trace.{LedgerCall, credit, debit, spec_run}
use partymixrust.Crypto.Pcd.{PcdBackend}
use partymixrust.Communication.{WithdrawalRequestPayload}
use partymixrust.Node.{MixerNode, NodeError}
use partymixrust.Deposit.{DepositHandler}
use partymixrust.Withdrawal.{
  WithdrawalHandler, WithdrawalError, queue_withdrawal, process_single_withdrawal,
}
use partymixrust.Withdrawal.Queue.{queued_request, queue_withdrawal-covered}
use partymixrust.Withdrawal.Compliance.{ProvesCompliant, process_single_withdrawal-fails}
use partymixrust.Mixer.{
  MixerCall, deposit_call, withdraw_call, consolidate_call, account_call, serve_calls, offered,
}
use partymixrust.Mixer.Flow.{assign_self}
use partymixrust.Mixer.Accounts.{credit_of, ledger_calls, serve_calls-accounts}

-- The call does not credit the user `u`.
abbrev NoCredit : Bytes → LedgerCall → Type 0
NoCredit u (credit v n) = v ≢ u
NoCredit u (debit v n) = Unit

pay-le :
    (u v : Bytes) (n : ℕ) (f : Accounts) (o : Option ℕ)
    → f v ≡ o
    → or_zero ((pay v n f o).0 u) ≤ or_zero (f u)
pay-le u v n f none e = omega arith
pay-le u v n f (some m) e = elim (bytes_discrete v u) [
  | yes own ↦
      let mine : f u ≡ some m = ap f (sym own) ∙ e in
      rw mine (elim (Bool-cases (ltb m n)) [ inl short ↦ ground arith | inr enough ↦ ground arith ])
  | no other ↦ rw (pay_other u v n f (some m) other) (omega arith)
]

spec_run-le :
    (u : Bytes) (cs : List LedgerCall) (f : Accounts)
    → All (NoCredit u) cs
    → or_zero ((spec_run f cs).0 u) ≤ or_zero (f u)
unfolding spec_run
spec_run-le u [] f h = omega arith
spec_run-le u (credit v n ∷ cs) f h =
    let other : v ≢ u = h.0 in ground (arith, spec_run-le u cs (credited v n f) h.1)
spec_run-le u (debit v n ∷ cs) f h =
    omega (arith, spec_run-le u cs (debited v n f).0 h.1, pay-le u v n f (f v) refl)

module _ (x : Platform) (b : PcdBackend x) (u : Bytes) where
  -- The call is not a deposit of the user `u`.
  abbrev pub NoDeposit : MixerCall x b → Type 0
  NoDeposit (deposit_call node user payload id now) = user ≢ u
  NoDeposit (withdraw_call user request id now) = Unit
  NoDeposit (consolidate_call node id) = Unit
  NoDeposit (account_call acct_id label is_primary id) = Unit

  module _ (deposits : DepositHandler) (withdrawals : WithdrawalHandler) where
    credit_of-NoCredit :
        (user : Bytes) (r : Result NodeError ℕ) (ds : List LedgerCall)
        → user ≢ u
        → All (NoCredit u) ds
        → All (NoCredit u) (credit_of x b deposits withdrawals user r ++ ds)
    credit_of-NoCredit user (err e) ds other h = h
    credit_of-NoCredit user (ok n) ds other h = (other, h)

    ledger_calls-NoCredit :
        (cs : List (MixerCall x b))
        → All NoDeposit cs
        → All (NoCredit u) (ledger_calls x b deposits withdrawals cs)
    unfolding ledger_calls
    ledger_calls-NoCredit [] h = tt
    ledger_calls-NoCredit (deposit_call node user payload id now ∷ cs) h =
        credit_of-NoCredit user _ _ h.0 (ledger_calls-NoCredit cs h.1)
    ledger_calls-NoCredit (withdraw_call user request id now ∷ cs) h =
        (tt, ledger_calls-NoCredit cs h.1)
    ledger_calls-NoCredit (consolidate_call node id ∷ cs) h = ledger_calls-NoCredit cs h.1
    ledger_calls-NoCredit (account_call acct_id label is_primary id ∷ cs) h =
        ledger_calls-NoCredit cs h.1

  module _ (p : Primitives x) (honest : ProvesCompliant x p b) (deposits : DepositHandler)
      (withdrawals : WithdrawalHandler) (request : WithdrawalRequestPayload x) (id : x.Uuid)
      (now : x.DateTime) where
    -- The withdrawal is queued and debited, no processing of it succeeds, and calls that are no
    -- deposits of the user leave at most what the debit left.
    pub record Lost (n : ℕ) (w : WalletState x) (cs : List (MixerCall x b)) : Type 0 where
      pub after : WalletState x
      pub queueing :
          queue_withdrawal x withdrawals w u request id now
          ≡ (after, ok (queued_request x withdrawals w u request id now))
      pub processing :
          (node : MixerNode x b) (wallet : WalletState x) (draw : Bytes)
          → (e : WithdrawalError) × (process_single_withdrawal x b withdrawals node wallet
                (queued_request x withdrawals w u request id now)
                draw
              ≡ err e)
      pub left :
          or_zero (accounts x (serve_calls x b deposits withdrawals after cs).0 u)
            + (request.amount + withdrawals.pool.config.withdrawal_service_fee)
          ≤ n

    -- With a backend that proves only what the compliance predicate accepts, on a wallet where
    -- nobody has withdrawn more than was credited, a withdrawal whose amount and fee the user's
    -- balance covers is queued, processing it fails on every node and wallet and with every draw,
    -- and after any sequence of withdrawals, consolidations, account creations and deposits of
    -- other users, whose offered coins keep the credited sum below the greatest u64, the user's
    -- balance is still lower than before by at least the amount and the fee.
    pub queue_withdrawal-Lost :
        (bound n : ℕ) (w : WalletState x) (cs : List (MixerCall x b))
        → IsLedger x bound w
        → bound + offered x b cs < u64_max
        → accounts x w u ≡ some n
        → request.amount + withdrawals.pool.config.withdrawal_service_fee ≤ n
        → All NoDeposit cs
        → Lost n w cs
    queue_withdrawal-Lost bound n w cs h fits found covered none_in =
        let fee = withdrawals.pool.config.withdrawal_service_fee in
        let after = (queue_withdrawal x withdrawals w u request id now).0 in
        let (answer, balances, _, _, ledger) =
          queue_withdrawal-covered x withdrawals w u request id now bound n h (omega arith) found
            covered in
        let mine : accounts x after u ≡ some (n - (request.amount + fee)) =
          ap (λ (f : Accounts). f u) balances ∙ assign_self u _ (accounts x w) in
        let final = serve_calls-accounts x b deposits withdrawals cs bound after ledger fits in
        let shrinks =
          spec_run-le u (ledger_calls x b deposits withdrawals cs) (accounts x after)
            (ledger_calls-NoCredit deposits withdrawals cs none_in) in
        record {
          after = after;
          queueing = ap (λ r. (after, r)) answer;
          processing = λ node wallet draw.
              process_single_withdrawal-fails x p b honest withdrawals node _ draw wallet;
          left = omega (
            arith,
            covered,
            shrinks,
            ap (λ (f : Accounts). or_zero (f u)) final,
            ap or_zero mine,
          );
        }
