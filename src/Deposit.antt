-- ===== src/Deposit.antt =====
-- partymixrust/src/deposit_handler.rs: receiving a deposit and moving it into the pool. The node is
-- borrowed beside a mutable wallet, so the wallet is never the node's own.
pub mod Receive
pub mod Consolidate
use partymixrust.Prelude.{ℕ, Option, none, some, List, [], ◌∷◌, Bytes, Result, ok, err}
use partymixrust.ShieldedCsv.Data.{CoinIdOnChain, PaymentInitLocalInput, payment_init_input, coin}
use partymixrust.ShieldedCsv.Platform.{Platform}
use partymixrust.ShieldedCsv.Primitives.{zero_bytes}
use partymixrust.ShieldedCsv.Payment.{on_chain_id}
use partymixrust.Types.{
  DepositReceipt, DepositStatus, pending_consolidation, MixerDeposit, PoolAccount, PoolCoin,
}
use partymixrust.Wallet.{WalletState, add_unspent_coin, remove_unspent_coin}
use partymixrust.Crypto.Pcd.{PcdBackend}
use partymixrust.Communication.{DepositPayload, MixerPayload, deposit}
use partymixrust.Node.{MixerNode, NodeError, accept_payment, current_nav}
use partymixrust.Pool.{PoolManager, PoolError, credit_deposit, primary_account}

pub data DepositError : Type 0 where
  invalid_proof payment_rejected : DepositError
  pool_error : PoolError → DepositError

pub record DepositHandler : Type 0 where
  pub pool : PoolManager
  pub mixer_acct_id : Bytes
  pub mixer_address_rand : Bytes

-- `DepositHandler::new`
abbrev pub new_deposit_handler : PoolManager → Bytes → Bytes → DepositHandler
new_deposit_handler pool mixer_acct_id mixer_address_rand = record {
  pool = pool;
  mixer_acct_id = mixer_acct_id;
  mixer_address_rand = mixer_address_rand;
}

module _ (x : Platform) (b : PcdBackend x) where
  -- The record of an accepted deposit; `id` and `now` are the fresh `Uuid` and the clock's time.
  abbrev pub new_deposit : DepositPayload x → Bytes → ℕ → x.Uuid → x.DateTime → MixerDeposit x
  new_deposit payload user amount id now = record {
    id = id;
    user_id_hash = user;
    amount = amount;
    credited_at = now;
    source_coin_on_chain_id = some (on_chain_id payload.coin);
    status = pending_consolidation;
  }

  -- After the node has accepted the payment.
  unfoldable pub credit_payment :
      WalletState x
      → Bytes
      → DepositPayload x
      → x.Uuid
      → x.DateTime
      → Result NodeError ℕ
      → WalletState x × Result DepositError (DepositReceipt x)
  unfolding credit_deposit add_unspent_coin
  credit_payment wallet user payload id now (err e) = (wallet, err payment_rejected)
  credit_payment wallet user payload id now (ok amount) =
      let made = new_deposit payload user amount id now in
      (
        add_unspent_coin x (credit_deposit x wallet user amount) (record {
          coin = payload.coin;
          proof = payload.coin_proof;
          pool_account_id = x.nil_uuid;
        }),
        ok (record { deposit_id = made.id; credited_amount = amount; status = made.status }),
      )

  unfoldable pub receive_deposit :
      DepositHandler
      → MixerNode x b
      → WalletState x
      → Bytes
      → DepositPayload x
      → x.Uuid
      → x.DateTime
      → WalletState x × Result DepositError (DepositReceipt x)
  unfolding credit_payment
  receive_deposit self node wallet user payload id now = credit_payment wallet user payload id now (
      accept_payment x b node payload.coin payload.coin_proof self.mixer_acct_id
        self.mixer_address_rand)

  -- The input that is prepared for the payment into the pool account.
  unfoldable pub consolidation_input :
      DepositHandler → MixerNode x b → PoolAccount x → PaymentInitLocalInput x.PublicKey
  unfolding current_nav
  consolidation_input self node account =
      let nav = current_nav x b node in
      record {
        acct_id = account.acct_id;
        acct_comm_rands = zero_bytes 32 ∷ [];
        new_coins = [];
        fee = self.pool.config.publisher_fee;
        new_spent_accum = account.state.spent_accum;
        snmi_proof = [];
        new_nullifier_pk = account.acct_id;
        conditional_nav = nav;
        tx_hash_randomness = zero_bytes 32;
        nullifier_tx_comm_pk = account.acct_id;
        nullifier_tx_comm = zero_bytes 32;
        nullifier_accum = nav;
        nap_proof = [];
      }

  -- The pool account, once the coin is out of the wallet. The result of `prove` is dropped.
  unfoldable pub prepare_consolidation :
      DepositHandler
      → MixerNode x b
      → PoolCoin x
      → Result PoolError (PoolAccount x)
      → Result DepositError Unit
  unfolding consolidation_input
  prepare_consolidation self node c (err e) = err (pool_error e)
  prepare_consolidation self node c (ok account) =
      let dropped =
        b.prove b.keygen.0 (coin c.coin)
          (payment_init_input (consolidation_input self node account)) [] (c.proof ∷ []) in
      ok tt

  -- After the coin has been looked up and removed.
  unfoldable pub after_removal :
      DepositHandler
      → MixerNode x b
      → WalletState x × Option (PoolCoin x)
      → WalletState x × Result DepositError Unit
  unfolding prepare_consolidation
  after_removal self node (wallet, none) = (wallet, err invalid_proof)
  after_removal self node (wallet, some c) =
      (wallet, prepare_consolidation self node c (primary_account x wallet))

  unfoldable pub consolidate_into_pool :
      DepositHandler
      → MixerNode x b
      → WalletState x
      → CoinIdOnChain
      → WalletState x × Result DepositError Unit
  unfolding after_removal
  consolidate_into_pool self node wallet id =
      after_removal self node (remove_unspent_coin x wallet id)

  unfoldable pub decode_payload : MixerPayload x → Option (DepositPayload x)
  decode_payload (deposit p) = some p
  decode_payload payload = none
