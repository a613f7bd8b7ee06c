-- ===== src/Mixer/Accounts.antt =====
-- The balances of the users over any sequence of the mixer's calls.
use partymixrust.Prelude.HashMap
use partymixrust.Pool.Accounts.{create_pool_account-liabilities}
use partymixrust.Prelude.{
  ℕ, ◌+◌, ◌≤◌, ◌<◌, ◌≡◌, refl, ap, sym, ◌∙◌, inl, inr, List, [], ◌∷◌, ◌++◌, arith, Bytes,
  bytes_discrete, same, Option, none, some, Result, Result-cases, ok, err,
}
use partymixrust.Prelude.Words.{u64_max, saturating_add}
use partymixrust.ShieldedCsv.Data.{CoinIdOnChain}
use partymixrust.ShieldedCsv.Platform.{Platform}
use partymixrust.Types.{PoolCoin}
use partymixrust.Wallet.{WalletState, debit_user, add_unspent_coin, remove_unspent_coin}
use partymixrust.Wallet.Coins.{Removal, remove_unspent_coin-Removal}
use partymixrust.Wallet.Ledger.{
  Accounts, IsLedger, accounts, balance, credited, debited, accounts-credit_user,
  accounts-debit_user,
}
use partymixrust.Wallet.Trace.{LedgerCall, credit, debit, spec_run}
use partymixrust.Crypto.Pcd.{PcdBackend}
use partymixrust.Communication.{DepositPayload, WithdrawalRequestPayload}
use partymixrust.Node.{MixerNode, NodeError, accept_payment}
use partymixrust.Node.Blocks.{accept_payment_iff}
use partymixrust.Pool.{create_pool_account, credit_deposit, reserve_withdrawal}
use partymixrust.Deposit.{
  DepositHandler, credit_payment, receive_deposit, after_removal, consolidate_into_pool,
}
use partymixrust.Withdrawal.{WithdrawalHandler, queue_withdrawal}
use partymixrust.Mixer.{
  MixerCall, deposit_call, withdraw_call, consolidate_call, account_call, serve_call, serve_calls,
  offer, offered,
}
use partymixrust.Mixer.Calls.{serve_call-Balanced}

spec_run-append :
    (f : Accounts) (cs ds : List LedgerCall)
    → (spec_run f (cs ++ ds)).0 ≡ (spec_run (spec_run f cs).0 ds).0
unfolding spec_run
spec_run-append f [] ds = refl
spec_run-append f (credit u n ∷ cs) ds = spec_run-append (credited u n f) cs ds
spec_run-append f (debit u n ∷ cs) ds = spec_run-append (debited u n f).0 cs ds

module _ (x : Platform) (b : PcdBackend x) (deposits : DepositHandler)
    (withdrawals : WithdrawalHandler) where
  -- What the answer of `accept_payment` asks of a user's account.
  abbrev pub credit_of : Bytes → Result NodeError ℕ → List LedgerCall
  credit_of user (err e) = []
  credit_of user (ok n) = credit user n ∷ []

  -- What a call asks of the accounts. It does not depend on the wallet.
  abbrev pub ledger_call : MixerCall x b → List LedgerCall
  ledger_call (deposit_call node user payload id now) = credit_of user (
      accept_payment x b node payload.coin payload.coin_proof deposits.mixer_acct_id
        deposits.mixer_address_rand)
  ledger_call (withdraw_call user request id now) =
      debit user (saturating_add request.amount withdrawals.pool.config.withdrawal_service_fee) ∷ []
  ledger_call (consolidate_call node id) = []
  ledger_call (account_call acct_id label is_primary id) = []

  unfoldable pub ledger_calls : List (MixerCall x b) → List LedgerCall
  ledger_calls [] = []
  ledger_calls (c ∷ cs) = ledger_call c ++ ledger_calls cs

  module _ (bound : ℕ) (w : WalletState x) (h : IsLedger x bound w) where
    deposit-accounts :
        (node : MixerNode x b) (user : Bytes) (payload : DepositPayload x) (id : x.Uuid)
        (now : x.DateTime)
        → bound + payload.coin.essence.amount ≤ u64_max
        → accounts x (receive_deposit x b deposits node w user payload id now).0
          ≡ (spec_run (accounts x w) (ledger_call (deposit_call node user payload id now))).0
    unfolding receive_deposit credit_payment credit_deposit add_unspent_coin spec_run
    deposit-accounts node user payload id now fits =
        elim (Result-cases (
          accept_payment x b node payload.coin payload.coin_proof deposits.mixer_acct_id
            deposits.mixer_address_rand)) [
              | inl (e, rejected) ↦ rw rejected refl
              | inr (n, accepted) ↦
                  let worth =
                    ((accept_payment_iff x b node payload.coin payload.coin_proof
                        deposits.mixer_acct_id deposits.mixer_address_rand n).0
                      accepted).1 in
                  rw accepted (accounts-credit_user x bound w user n h (omega (arith, worth)))
            ]

    queue-wallet :
        (user : Bytes) (request : WithdrawalRequestPayload x) (id : x.Uuid) (now : x.DateTime)
        → (queue_withdrawal x withdrawals w user request id now).0
          ≡ (debit_user x w user
              (saturating_add request.amount withdrawals.pool.config.withdrawal_service_fee)).0
    unfolding queue_withdrawal reserve_withdrawal
    queue-wallet user request id now = ground arith

    removed-accounts :
        (node : MixerNode x b) (id : CoinIdOnChain) (r : WalletState x × Option (PoolCoin x))
        → Removal x w id r
        → accounts x (after_removal x b deposits node r).0 ≡ accounts x w
    unfolding after_removal
    removed-accounts node id (w', none) (same, _) = ap (accounts x) same
    removed-accounts node id (w', some c) (same, _) = ap (accounts x) same

    same_accounts :
        (w' : WalletState x) → w'.liabilities ≡ w.liabilities → accounts x w' ≡ accounts x w
    same_accounts w' e = ap {B = Accounts} (λ m u. balance x (HashMap.get bytes_discrete u m)) e

    serve_call-accounts :
        (c : MixerCall x b)
        → bound + offer x b c < u64_max
        → accounts x (serve_call x b deposits withdrawals w c).0
          ≡ (spec_run (accounts x w) (ledger_call c)).0
    unfolding serve_call spec_run consolidate_into_pool
    serve_call-accounts (deposit_call node user payload id now) fits =
        deposit-accounts node user payload id now (omega arith)
    serve_call-accounts (withdraw_call user request id now) fits =
        ap (accounts x) (queue-wallet user request id now)
        ∙ (accounts-debit_user x bound w user _ h (omega arith)).0
    serve_call-accounts (consolidate_call node id) fits =
        removed-accounts node id (remove_unspent_coin x w id) (remove_unspent_coin-Removal x w id)
    serve_call-accounts (account_call acct_id label is_primary id) fits =
        same_accounts (create_pool_account x w acct_id label is_primary id).0
          (create_pool_account-liabilities x w acct_id label is_primary id)

  -- On a wallet where nobody has withdrawn more than was credited, any sequence of deposits,
  -- withdrawals, consolidations and account creations whose offered coins keep the credited sum
  -- below the greatest u64 leaves the balances that plain accounts have after one credit for each
  -- deposit that its node accepts, and one debit of the saturated sum of amount and fee for each
  -- withdrawal.
  pub serve_calls-accounts :
      (cs : List (MixerCall x b)) (bound : ℕ) (w : WalletState x)
      → IsLedger x bound w
      → bound + offered x b cs < u64_max
      → accounts x (serve_calls x b deposits withdrawals w cs).0
        ≡ (spec_run (accounts x w) (ledger_calls cs)).0
  unfolding serve_calls offered ledger_calls spec_run
  serve_calls-accounts [] bound w h fits = refl
  serve_calls-accounts (c ∷ cs) bound w h fits =
      let w' = (serve_call x b deposits withdrawals w c).0 in
      let (ledger, _) = serve_call-Balanced x b deposits withdrawals bound w h c (omega arith) in
      serve_calls-accounts cs (bound + offer x b c) w' ledger (omega arith)
      ∙ ap (λ f. (spec_run f (ledger_calls cs)).0) (serve_call-accounts bound w h c (omega arith))
      ∙ sym (spec_run-append (accounts x w) (ledger_call c) (ledger_calls cs))
