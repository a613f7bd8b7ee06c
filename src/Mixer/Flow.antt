-- ===== src/Mixer/Flow.antt =====
-- A deposit, a withdrawal of it and the delivery, from one node to another, with the backend of
-- mock.rs: the flow of tests/integration.rs.
use partymixrust.Prelude.{
  Result-cases, ℕ, ◌+◌, ◌≤◌, ◌≡◌, refl, ap, ◌∙◌, inl, inr, some, [], ◌∷◌, ◌++◌, map, arith, Bytes,
  Member, ok,
}
use partymixrust.Prelude.Words.{u64_max}
use partymixrust.ShieldedCsv.Platform.{Platform}
use partymixrust.ShieldedCsv.Primitives.{commit, zero_bytes}
use partymixrust.ShieldedCsv.Payment.{on_chain_id}
use partymixrust.Types.{MixerWithdrawalRequest, WithdrawalDelivery, PoolAccount, PoolCoin}
use partymixrust.Wallet.{
  WalletState, primary_pool_account, credit_user, debit_user, add_unspent_coin,
}
use partymixrust.Wallet.Ledger.{IsLedger, Accounts, accounts, assign, or_zero}
use partymixrust.Crypto.Pcd.{mock_pcd, mock_pcd_prefix}
use partymixrust.Crypto.Pcd.Forgery.{starts_with_iff}
use partymixrust.Communication.{DepositPayload, WithdrawalRequestPayload}
use partymixrust.Node.{MixerNode, accept_payment, current_nav}
use partymixrust.Node.Blocks.{accept_payment_iff}
use partymixrust.Pool.{reserve_withdrawal, primary_account}
use partymixrust.Deposit.{DepositHandler, receive_deposit, credit_payment}
use partymixrust.Deposit.Receive.{IsAcceptable, receipt, receive_deposit_credits}
use partymixrust.Withdrawal.{
  WithdrawalHandler, queue_withdrawal, mock_coin, process_single_withdrawal,
}
use partymixrust.Withdrawal.Queue.{queued_request, queue_withdrawal-covered}

pub assign_self : (u : Bytes) (n : ℕ) (f : Accounts) → assign u n f u ≡ some n
assign_self u n f = ground arith

module _ (x : Platform) where
  -- The pool accounts are none of the ledger's business.
  queue-pool_accounts :
      (self : WithdrawalHandler) (w : WalletState x) (user : Bytes)
      (request : WithdrawalRequestPayload x) (id : x.Uuid) (now : x.DateTime)
      → (queue_withdrawal x self w user request id now).0.pool_accounts ≡ w.pool_accounts
  unfolding queue_withdrawal reserve_withdrawal debit_user
  queue-pool_accounts self w user request id now = ground arith

  module _ (self : WithdrawalHandler) (node : MixerNode x (mock_pcd x)) (w : WalletState x)
      (a : PoolAccount x) (found : primary_pool_account x w ≡ some a) (r : MixerWithdrawalRequest x)
      (draw : Bytes) where
    abbrev delivered : WithdrawalDelivery x
    delivered =
        let c = mock_coin x (mock_pcd x) node r a draw in
        record { request_id = r.id; coin = c; coin_proof = mock_pcd_prefix; tx_hash = c.tx_hash }

    process_single-delivered :
        process_single_withdrawal x (mock_pcd x) self node w r draw ≡ ok delivered
    unfolding process_single_withdrawal primary_account
    process_single-delivered = ground arith

    -- The recipient's side: a delivered coin at the recipient's address, whose accumulator value is
    -- known there and whose identifier is new, is accepted at the request's amount.
    delivered-accepted :
        (recipient : MixerNode x (mock_pcd x)) (acct opening : Bytes)
        → r.destination_address ≡ commit x acct opening
        → Member (current_nav x (mock_pcd x) node) recipient.wallet.nullifier_accum_history
        → ¬ Member
            (on_chain_id delivered.coin)
            (map (λ (u : PoolCoin x). on_chain_id u.coin) recipient.wallet.unspent_coins)
        → accept_payment x (mock_pcd x) recipient delivered.coin delivered.coin_proof acct opening
          ≡ ok r.amount
    unfolding mock_coin current_nav
    delivered-accepted recipient acct opening address known new =
        (accept_payment_iff x (mock_pcd x) recipient delivered.coin delivered.coin_proof acct
            opening r.amount).1
          (
            record {
              addressed = address;
              unseen = new;
              historic = known;
              proved = ap ok ((starts_with_iff mock_pcd_prefix).1 ([], refl));
            },
            refl,
          )

  deposit-pool_accounts :
      (self : DepositHandler) (node : MixerNode x (mock_pcd x)) (w : WalletState x) (user : Bytes)
      (payload : DepositPayload x) (id : x.Uuid) (now : x.DateTime)
      → (receive_deposit x (mock_pcd x) self node w user payload id now).0.pool_accounts
        ≡ w.pool_accounts
  unfolding receive_deposit credit_payment credit_user add_unspent_coin
  deposit-pool_accounts self node w user payload id now =
      elim (Result-cases (
        accept_payment x (mock_pcd x) node payload.coin payload.coin_proof self.mixer_acct_id
          self.mixer_address_rand)) [ inl (e, h) ↦ ground arith | inr (n, h) ↦ ground arith ]

  module _ (deposits : DepositHandler) (withdrawals : WithdrawalHandler)
      (node : MixerNode x (mock_pcd x)) (w : WalletState x) (user : Bytes)
      (payload : DepositPayload x) (request : WithdrawalRequestPayload x) (id id' : x.Uuid)
      (now now' : x.DateTime) (draw : Bytes) (recipient : MixerNode x (mock_pcd x))
      (acct opening : Bytes) where
    -- The wallet after the deposit and after the queueing.
    abbrev after_deposit : WalletState x
    after_deposit = (receive_deposit x (mock_pcd x) deposits node w user payload id now).0

    abbrev after_queue : WalletState x
    after_queue = (queue_withdrawal x withdrawals after_deposit user request id' now').0

    -- What the flow starts from.
    pub record Ready (bound : ℕ) : Type 0 where
      pub ledger : IsLedger x bound w
      pub fits : bound + payload.coin.essence.amount ≤ u64_max
      pub acceptable : IsAcceptable x (mock_pcd x) deposits node user payload
      pub account : PoolAccount x
      pub has_primary : primary_pool_account x w ≡ some account
      pub covered :
          request.amount + withdrawals.pool.config.withdrawal_service_fee
          ≤ payload.coin.essence.amount
      pub address : request.destination_address ≡ commit x acct opening
      pub known : Member (current_nav x (mock_pcd x) node) recipient.wallet.nullifier_accum_history
      -- the identifier that every delivered coin has
      pub new :
          ¬ Member
            (zero_bytes 6 ++ 0 ∷ 1 ∷ [])
            (map (λ (u : PoolCoin x). on_chain_id u.coin) recipient.wallet.unspent_coins)

    -- How it goes.
    pub record Delivered : Type 0 where
      pub deposited :
          (receive_deposit x (mock_pcd x) deposits node w user payload id now).1
          ≡ ok (receipt x (mock_pcd x) deposits node user payload id)
      pub made : MixerWithdrawalRequest x
      pub queueing :
          (queue_withdrawal x withdrawals after_deposit user request id' now').1 ≡ ok made
      pub delivery : WithdrawalDelivery x
      pub processing :
          process_single_withdrawal x (mock_pcd x) withdrawals node after_queue made draw
          ≡ ok delivery
      pub payment :
          accept_payment x (mock_pcd x) recipient delivery.coin delivery.coin_proof acct opening
          ≡ ok request.amount

    -- With the backend of mock.rs, an acceptable deposit into a sound wallet with a primary
    -- account, whose credited sum it keeps within u64, is credited, a withdrawal that the
    -- deposit's amount covers with the fee is queued and processed, and a recipient to whom the
    -- request is addressed, whose history has the node's accumulator value and whose wallet has
    -- no coin with the identifier of deliveries, accepts the delivered coin at the requested
    -- amount.
    pub flow-Delivered : (bound : ℕ) → Ready bound → Delivered
    unfolding primary_pool_account mock_coin on_chain_id
    flow-Delivered bound s =
        let amount = payload.coin.essence.amount in
        let fee = withdrawals.pool.config.withdrawal_service_fee in
        let (answer, balances, _, _, ledger) =
          receive_deposit_credits x (mock_pcd x) deposits node user payload w id now bound s.ledger
            s.fits s.acceptable in
        let n = or_zero (accounts x w user) + amount in
        let funded : accounts x after_deposit user ≡ some n =
          ap (λ (f : Accounts). f user) balances ∙ assign_self user n (accounts x w) in
        let queued =
          queue_withdrawal-covered x withdrawals after_deposit user request id' now'
            (bound + amount) n ledger s.fits funded (omega (arith, s.covered)) in
        let q = queued_request x withdrawals after_deposit user request id' now' in
        let same : after_queue.pool_accounts ≡ w.pool_accounts =
          queue-pool_accounts withdrawals after_deposit user request id' now'
          ∙ deposit-pool_accounts deposits node w user payload id now in
        let found : primary_pool_account x after_queue ≡ some s.account = rw same s.has_primary in
        record {
          deposited = answer;
          made = q;
          queueing = queued.0;
          delivery = delivered withdrawals node after_queue s.account found q draw;
          processing = process_single-delivered withdrawals node after_queue s.account found q draw;
          payment =
              delivered-accepted withdrawals node after_queue s.account found q draw recipient acct
                opening s.address s.known s.new;
        }
