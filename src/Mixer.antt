-- ===== src/Mixer.antt =====
-- A mixer in service: the calls of the handlers and of the pool manager that change one wallet, in any
-- order, each beside the node as it stands at that time.
pub mod Calls
pub mod Books
pub mod Accounts
pub mod Isolation
pub mod Lost
pub mod Order
pub mod Flow
pub mod Wire
use Prim.Native.String.{String}
use partymixrust.Prelude.HashMap
use partymixrust.Prelude.{Bool, ℕ, ◌+◌, Option, none, some, List, [], ◌∷◌, Bytes, Result, ok, err}
use partymixrust.ShieldedCsv.Data.{CoinIdOnChain}
use partymixrust.ShieldedCsv.Platform.{Platform}
use partymixrust.Types.{MixerConfig, MixerWithdrawalRequest, DepositReceipt, PoolCoin, PoolAccount}
use partymixrust.Wallet.{WalletState, remove_unspent_coin, coin_amount, account_balance}
use partymixrust.Pool.{create_pool_account}
use partymixrust.Crypto.Pcd.{PcdBackend}
use partymixrust.Communication.{DepositPayload, WithdrawalRequestPayload}
use partymixrust.Node.{MixerNode}
use partymixrust.Deposit.{DepositHandler, DepositError, receive_deposit, consolidate_into_pool}
use partymixrust.Withdrawal.{WithdrawalHandler, WithdrawalError, queue_withdrawal}

module _ (x : Platform) (b : PcdBackend x) where
  pub data MixerCall : Type 0 where
    deposit_call : MixerNode x b → Bytes → DepositPayload x → x.Uuid → x.DateTime → MixerCall
    withdraw_call : Bytes → WithdrawalRequestPayload x → x.Uuid → x.DateTime → MixerCall
    consolidate_call : MixerNode x b → CoinIdOnChain → MixerCall
    account_call : x.PublicKey → String → Bool → x.Uuid → MixerCall

-- What was credited and what was reserved by the answers, what consolidations took out, and what
-- the accounts held in whose place, under one identifier, new ones were put.
pub record Tally : Type 0 where
  pub credited : ℕ
  pub reserved : ℕ
  pub consolidated : ℕ
  pub replaced : ℕ

abbrev pub nothing : Tally
nothing = record { credited = 0; reserved = 0; consolidated = 0; replaced = 0 }

abbrev pub add : Tally → Tally → Tally
add s t = record {
  credited = s.credited + t.credited;
  reserved = s.reserved + t.reserved;
  consolidated = s.consolidated + t.consolidated;
  replaced = s.replaced + t.replaced;
}

module _ (x : Platform) where
  abbrev pub tally_deposit : Result DepositError (DepositReceipt x) → Tally
  tally_deposit (err e) = nothing
  tally_deposit (ok r) = record nothing { credited = r.credited_amount }

  abbrev pub tally_withdrawal : Result WithdrawalError (MixerWithdrawalRequest x) → Tally
  tally_withdrawal (err e) = nothing
  tally_withdrawal (ok r) = record nothing { reserved = r.amount + r.service_fee }

  abbrev pub tally_removed : Option (PoolCoin x) → Tally
  tally_removed none = nothing
  tally_removed (some c) = record nothing { consolidated = coin_amount x c }

  abbrev pub tally_replaced : Option (PoolAccount x) → Tally
  tally_replaced none = nothing
  tally_replaced (some a) = record nothing { replaced = account_balance x a }

module _ (x : Platform) (b : PcdBackend x) where
  module _ (deposits : DepositHandler) (withdrawals : WithdrawalHandler) where
    -- The wallet after a call, and what the call did.
    unfoldable pub serve_call : WalletState x → MixerCall x b → WalletState x × Tally
    serve_call w (deposit_call node user payload id now) =
        let (w', r) = receive_deposit x b deposits node w user payload id now in
        (w', tally_deposit x r)
    serve_call w (withdraw_call user request id now) =
        let (w', r) = queue_withdrawal x withdrawals w user request id now in
        (w', tally_withdrawal x r)
    serve_call w (consolidate_call node id) = (
      (consolidate_into_pool x b deposits node w id).0,
      tally_removed x (remove_unspent_coin x w id).1,
    )
    serve_call w (account_call acct_id label is_primary id) = (
      (create_pool_account x w acct_id label is_primary id).0,
      tally_replaced x (HashMap.get x.uuid_discrete id w.pool_accounts),
    )

    unfoldable pub serve_calls : WalletState x → List (MixerCall x b) → WalletState x × Tally
    unfolding serve_call
    serve_calls w [] = (w, nothing)
    serve_calls w (c ∷ cs) =
        let (w', s) = serve_call w c in let (w'', t) = serve_calls w' cs in (w'', add s t)

  -- The coin that a call offers.
  abbrev pub offer : MixerCall x b → ℕ
  offer (deposit_call node user payload id now) = payload.coin.essence.amount
  offer (withdraw_call user request id now) = 0
  offer (consolidate_call node id) = 0
  offer (account_call acct_id label is_primary id) = 0

  -- The sum of the coins that are offered.
  unfoldable pub offered : List (MixerCall x b) → ℕ
  offered [] = 0
  offered (c ∷ cs) = offer c + offered cs
