-- ===== src/Mixer/Order.antt =====
-- The mixer's calls on two wallets whose maps are gone through in different orders.
use partymixrust.Prelude.{
  ℕ, ◌≡◌, refl, ap, ap₂, ◌∙◌, subst, inl, inr, Option, none, some, List, [], ◌∷◌, Bytes, Result,
  Result-cases, ok, err,
}
use partymixrust.ShieldedCsv.Data.{CoinIdOnChain}
use partymixrust.ShieldedCsv.Platform.{Platform}
use partymixrust.Types.{MixerWithdrawalRequest, DepositReceipt, PoolCoin, PoolAccount}
use partymixrust.Wallet.{WalletState, primary_pool_account, remove_unspent_coin}
use partymixrust.Wallet.Ledger.{accounts, balance}
use partymixrust.Wallet.Alike.{
  Alike, AlikeWith, get-Alike, primary-Alike, add_unspent_coin-Alike, remove_unspent_coin-Alike,
}
use partymixrust.Crypto.Pcd.{PcdBackend}
use partymixrust.Communication.{DepositPayload, WithdrawalRequestPayload}
use partymixrust.Node.{MixerNode, NodeError}
use partymixrust.Pool.{create_pool_account, reserve_withdrawal, check_solvency}
use partymixrust.Pool.Alike.{
  credit_deposit-Alike, reserve_withdrawal-Alike, primary_account-Alike, check_solvency-Alike,
  create_pool_account-Alike,
}
use partymixrust.Deposit.{
  DepositHandler, DepositError, receive_deposit, credit_payment, consolidate_into_pool,
  after_removal, prepare_consolidation,
}
use partymixrust.Withdrawal.{WithdrawalHandler, WithdrawalError, queue_withdrawal}
use partymixrust.Mixer.{
  MixerCall, deposit_call, withdraw_call, consolidate_call, account_call, serve_call, serve_calls,
}

module _ (x : Platform) where
  -- What the caller gets back.
  pub data Answer : Type 0 where
    deposit_answer : Result DepositError (DepositReceipt x) → Answer
    withdrawal_answer : Result WithdrawalError (MixerWithdrawalRequest x) → Answer
    consolidation_answer : Result DepositError Unit → Answer
    account_answer : PoolAccount x → Answer

module _ (x : Platform) (b : PcdBackend x) (deposits : DepositHandler)
    (withdrawals : WithdrawalHandler) where
  abbrev pub answer : WalletState x → MixerCall x b → Answer x
  answer w (deposit_call node user payload id now) =
      deposit_answer (receive_deposit x b deposits node w user payload id now).1
  answer w (withdraw_call user request id now) =
      withdrawal_answer (queue_withdrawal x withdrawals w user request id now).1
  answer w (consolidate_call node id) =
      consolidation_answer (consolidate_into_pool x b deposits node w id).1
  answer w (account_call acct_id label is_primary id) =
      account_answer (create_pool_account x w acct_id label is_primary id).1

  -- The answers to the calls, each given by the wallet as the calls before it leave it.
  unfoldable pub answers : WalletState x → List (MixerCall x b) → List (Answer x)
  answers w [] = []
  answers w (c ∷ cs) = answer w c ∷ answers (serve_call x b deposits withdrawals w c).0 cs

  module _ (w w' : WalletState x) (h : Alike x w w') where
    credit_payment-Alike :
        (user : Bytes) (payload : DepositPayload x) (id : x.Uuid) (now : x.DateTime)
        (r : Result NodeError ℕ)
        → AlikeWith x
            (credit_payment x b w user payload id now r)
            (credit_payment x b w' user payload id now r)
    unfolding credit_payment
    credit_payment-Alike user payload id now (err e) = (h, refl)
    credit_payment-Alike user payload id now (ok n) =
        (add_unspent_coin-Alike x _ _ (credit_deposit-Alike x w w' h user n) _, refl)

    receive_deposit-Alike :
        (node : MixerNode x b) (user : Bytes) (payload : DepositPayload x) (id : x.Uuid)
        (now : x.DateTime)
        → AlikeWith x
            (receive_deposit x b deposits node w user payload id now)
            (receive_deposit x b deposits node w' user payload id now)
    unfolding receive_deposit
    receive_deposit-Alike node user payload id now = credit_payment-Alike user payload id now _

    queue_withdrawal-Alike :
        (user : Bytes) (request : WithdrawalRequestPayload x) (id : x.Uuid) (now : x.DateTime)
        → AlikeWith x
            (queue_withdrawal x withdrawals w user request id now)
            (queue_withdrawal x withdrawals w' user request id now)
    unfolding queue_withdrawal
    queue_withdrawal-Alike user request id now =
        let fee = withdrawals.pool.config.withdrawal_service_fee in
        let (after, same) = reserve_withdrawal-Alike x w w' h user request.amount fee in
        elim (Result-cases (reserve_withdrawal x w' user request.amount fee).1) [
          | inl (e, refused) ↦ rw (queue_withdrawal, same ∙ refused, refused) (after, refl)
          | inr (u, reserved) ↦ rw (queue_withdrawal, same ∙ reserved, reserved) (after, refl)
        ]

    after_removal-Alike :
        (node : MixerNode x b) (o : Option (PoolCoin x))
        → AlikeWith x
            (after_removal x b deposits node (w, o))
            (after_removal x b deposits node (w', o))
    unfolding after_removal
    after_removal-Alike node none = (h, refl)
    after_removal-Alike node (some c) =
        (h, ap (prepare_consolidation x b deposits node c) (primary_account-Alike x w w' h))

  module _ (w w' : WalletState x) (h : Alike x w w') where
    consolidate_into_pool-Alike :
        (node : MixerNode x b) (id : CoinIdOnChain)
        → AlikeWith x
            (consolidate_into_pool x b deposits node w id)
            (consolidate_into_pool x b deposits node w' id)
    unfolding consolidate_into_pool
    consolidate_into_pool-Alike node id =
        let taken = remove_unspent_coin x w id in
        let rest = (remove_unspent_coin x w' id).0 in
        let (after, same) = remove_unspent_coin-Alike x w w' h id in
        subst
          (λ o.
            AlikeWith x (after_removal x b deposits node taken)
              (after_removal x b deposits node (rest, o)))
          same (after_removal-Alike taken.0 rest after node taken.1)

    serve_call-Alike :
        (c : MixerCall x b)
        → Alike x
            (serve_call x b deposits withdrawals w c).0
            (serve_call x b deposits withdrawals w' c).0
          × (answer w c ≡ answer w' c)
    unfolding serve_call
    serve_call-Alike (deposit_call node user payload id now) =
        let (after, same) = receive_deposit-Alike w w' h node user payload id now in
        (after, ap deposit_answer same)
    serve_call-Alike (withdraw_call user request id now) =
        let (after, same) = queue_withdrawal-Alike w w' h user request id now in
        (after, ap withdrawal_answer same)
    serve_call-Alike (consolidate_call node id) =
        let (after, same) = consolidate_into_pool-Alike node id in
        (after, ap consolidation_answer same)
    serve_call-Alike (account_call acct_id label is_primary id) =
        let (after, same) = create_pool_account-Alike x w w' h acct_id label is_primary id in
        (after, ap account_answer same)

  run-Alike :
      (cs : List (MixerCall x b)) (w w' : WalletState x)
      → Alike x w w'
      → (answers w cs ≡ answers w' cs)
        × Alike x
            (serve_calls x b deposits withdrawals w cs).0
            (serve_calls x b deposits withdrawals w' cs).0
  unfolding serve_calls answers
  run-Alike [] w w' h = (refl, h)
  run-Alike (c ∷ cs) w w' h =
      let (after, same) = serve_call-Alike w w' h c in
      let (rest, alike) = run-Alike cs _ _ after in (ap₂ ◌∷◌ same rest, alike)

  -- For two wallets with the same coins and history, whose maps have the same entries in any two
  -- orders, where no key of the liabilities or of the pool accounts has two entries and at most
  -- one account is marked primary, any sequence of deposits, withdrawals, consolidations and
  -- account creations gets the same answers one by one and leaves two such wallets again, for
  -- which check_solvency, the primary account and every user's balance are the same.
  pub serve_calls-Alike :
      (cs : List (MixerCall x b)) (w w' : WalletState x)
      → Alike x w w'
      → let after = (serve_calls x b deposits withdrawals w cs).0 in
        let after' = (serve_calls x b deposits withdrawals w' cs).0 in
        (answers w cs ≡ answers w' cs)
        × Alike x after after'
        × (check_solvency x after ≡ check_solvency x after')
        × (primary_pool_account x after ≡ primary_pool_account x after')
        × ((u : Bytes) → accounts x after u ≡ accounts x after' u)
  serve_calls-Alike cs w w' h =
      let (same_answers, alike) = run-Alike cs w w' h in
      (
        same_answers,
        alike,
        check_solvency-Alike x _ _ alike,
        primary-Alike x _ _ alike,
        λ u. ap (balance x) (get-Alike x _ _ alike u),
      )
