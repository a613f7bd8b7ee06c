-- ===== src/Mixer/Calls.antt =====
-- One call of a mixer in service: what it does to the books.
use partymixrust.Prelude.{
  map, ℕ, ◌+◌, ◌≤◌, ◌<◌, ◌≡◌, ap, inl, inr, Option, some, none, arith, Bytes,
}
use partymixrust.Prelude.Words.{u64_max, total}
use partymixrust.ShieldedCsv.Data.{CoinIdOnChain}
use partymixrust.ShieldedCsv.Platform.{Platform}
use partymixrust.Types.{PoolCoin, PoolAccount, LiabilityEntry, available}
use partymixrust.Wallet.{WalletState, remove_unspent_coin, account_balance}
use partymixrust.Wallet.Coins.{Removal, Taken-total, remove_unspent_coin-Removal}
use partymixrust.Wallet.Ledger.{IsLedger, IsLedger-mono}
use partymixrust.Crypto.Pcd.{PcdBackend}
use partymixrust.Communication.{DepositPayload, WithdrawalRequestPayload}
use partymixrust.Node.{MixerNode}
use partymixrust.Prelude.HashMap
use partymixrust.Pool.Accounts.{create_pool_account-held, create_pool_account-liabilities}
use partymixrust.Pool.Solvency.{worth, owed, held}
use partymixrust.Deposit.{DepositHandler, after_removal, consolidate_into_pool}
use partymixrust.Withdrawal.{WithdrawalHandler}
use partymixrust.Deposit.Receive.{receive_deposit-cases, receive_deposit_credits}
use partymixrust.Withdrawal.Queue.{queue_withdrawal-cases, queue_withdrawal-covered}
use partymixrust.Mixer.{
  MixerCall, deposit_call, withdraw_call, consolidate_call, account_call, tally_replaced, Tally,
  tally_removed, serve_call, offer,
}

-- From `w`, calls that offered coins up to `limit` have led to `w'` with this tally.
pub record Balanced (x : Platform) (limit : ℕ) (w : WalletState x) (w' : WalletState x) (t : Tally)
    : Type 0 where
  pub holdings : held x w' + t.consolidated + t.replaced ≡ held x w + t.credited
  pub debts : owed x w' + t.reserved ≡ owed x w + t.credited
  pub within : t.credited ≤ limit

module _ (x : Platform) where
  pub IsLedger-same :
      (bound : ℕ) (w w' : WalletState x)
      → w'.liabilities ≡ w.liabilities
      → IsLedger x bound w
      → IsLedger x bound w'
  IsLedger-same bound w w' e h = record { sound = λ u. rw e (h.sound u) }

  owed-same : (w w' : WalletState x) → w'.liabilities ≡ w.liabilities → owed x w' ≡ owed x w
  owed-same w w' e =
      ap (λ (m : HashMap.HashMap Bytes LiabilityEntry). total (map available (HashMap.values m))) e

module _ (x : Platform) (b : PcdBackend x) (deposits : DepositHandler)
    (withdrawals : WithdrawalHandler) where
  -- One call, from the wallet `w`.
  module _ (bound : ℕ) (w : WalletState x) (h : IsLedger x bound w) where
    deposit-Balanced :
        (node : MixerNode x b) (user : Bytes) (payload : DepositPayload x) (id : x.Uuid)
        (now : x.DateTime)
        → bound + payload.coin.essence.amount ≤ u64_max
        → let (w', t) =
            serve_call x b deposits withdrawals w (deposit_call node user payload id now) in
          IsLedger x (bound + payload.coin.essence.amount) w'
          × Balanced x payload.coin.essence.amount w w' t
    unfolding serve_call
    deposit-Balanced node user payload id now fits =
        let amount = payload.coin.essence.amount in
        elim (receive_deposit-cases x b deposits node user payload w id now) [
          | inl rejected ↦ rw rejected (
            IsLedger-mono x bound (bound + amount) w (omega arith) h,
            record { holdings = omega arith; debts = omega arith; within = omega arith },
          )
          | inr acceptable ↦
              let (answer, _, debts, holdings, ledger) =
                receive_deposit_credits x b deposits node user payload w id now bound h fits
                  acceptable in
              (
                ledger,
                rw answer (record {
                  holdings = omega (arith, holdings);
                  debts = omega (arith, debts);
                  within = omega arith;
                }),
              )
        ]

    withdraw-Balanced :
        (user : Bytes) (request : WithdrawalRequestPayload x) (id : x.Uuid) (now : x.DateTime)
        → bound < u64_max
        → let (w', t) = serve_call x b deposits withdrawals w (withdraw_call user request id now) in
          IsLedger x bound w' × Balanced x 0 w w' t
    unfolding serve_call
    withdraw-Balanced user request id now fits =
        elim (queue_withdrawal-cases x withdrawals w user request id now bound h fits) [
          | inl (e, refused) ↦
              rw refused
                (h, record { holdings = omega arith; debts = omega arith; within = omega arith })
          | inr (n, found, covers) ↦
              let (answer, _, debts, holdings, ledger) =
                queue_withdrawal-covered x withdrawals w user request id now bound n h (omega arith)
                  found covers in
              (
                ledger,
                rw answer (record {
                  holdings = omega (arith, holdings);
                  debts = omega (arith, debts);
                  within = omega arith;
                }),
              )
        ]

    removed-Balanced :
        (node : MixerNode x b) (id : CoinIdOnChain) (r : WalletState x × Option (PoolCoin x))
        → Removal x w id r
        → IsLedger x bound (after_removal x b deposits node r).0
          × Balanced x 0 w (after_removal x b deposits node r).0 (tally_removed x r.1)
    unfolding after_removal
    removed-Balanced node id (w', none) (same, _) = (
      IsLedger-same x bound w w' (ap (λ v. v.liabilities) same) h,
      record {
        holdings = omega (arith, ap (held x) same);
        debts = omega (arith, ap (owed x) same);
        within = omega arith;
      },
    )
    removed-Balanced node id (w', some c) (same, taken) = (
      IsLedger-same x bound w w' (ap (λ v. v.liabilities) same) h,
      record {
        holdings =
            omega
              (arith, ap (held x) same, Taken-total id w.unspent_coins c w'.unspent_coins taken);
        debts = omega (arith, ap (owed x) same);
        within = omega arith;
      },
    )

    replaced-Balanced :
        (w' : WalletState x) (o : Option (PoolAccount x))
        → w'.liabilities ≡ w.liabilities
        → held x w' + worth x.uuid_discrete (account_balance x) o ≡ held x w
        → IsLedger x bound w' × Balanced x 0 w w' (tally_replaced x o)
    replaced-Balanced w' none same holdings = (
      IsLedger-same x bound w w' same h,
      record {
        holdings = omega (arith, holdings);
        debts = omega (arith, owed-same x w w' same);
        within = omega arith;
      },
    )
    replaced-Balanced w' (some a) same holdings = (
      IsLedger-same x bound w w' same h,
      record {
        holdings = omega (arith, holdings);
        debts = omega (arith, owed-same x w w' same);
        within = omega arith;
      },
    )

    pub serve_call-Balanced :
        (c : MixerCall x b)
        → bound + offer x b c < u64_max
        → let (w', t) = serve_call x b deposits withdrawals w c in
          IsLedger x (bound + offer x b c) w' × Balanced x (offer x b c) w w' t
    unfolding serve_call consolidate_into_pool
    serve_call-Balanced (deposit_call node user payload id now) fits =
        deposit-Balanced node user payload id now (omega arith)
    serve_call-Balanced (withdraw_call user request id now) fits =
        let (ledger, one) = withdraw-Balanced user request id now (omega arith) in
        (IsLedger-mono x bound (bound + 0) _ (omega arith) ledger, one)
    serve_call-Balanced (consolidate_call node id) fits =
        let (ledger, one) =
          removed-Balanced node id (remove_unspent_coin x w id)
            (remove_unspent_coin-Removal x w id) in
        (IsLedger-mono x bound (bound + 0) _ (omega arith) ledger, one)
    serve_call-Balanced (account_call acct_id label is_primary id) fits =
        let (ledger, one) =
          replaced-Balanced _ (HashMap.get x.uuid_discrete id w.pool_accounts)
            (create_pool_account-liabilities x w acct_id label is_primary id)
            (create_pool_account-held x w acct_id label is_primary id) in
        (IsLedger-mono x bound (bound + 0) _ (omega arith) ledger, one)
