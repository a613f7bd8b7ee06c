-- ===== src/Withdrawal.antt =====
-- partymixrust/src/withdrawal_handler.rs: queueing and processing of withdrawals.
pub mod Queue
pub mod Process
pub mod Batch
pub mod Compliance
use Prim.Native.String.{String}
use partymixrust.Prelude.{
  ℕ, suc, ◌+◌, Bool, Option, none, some, List, [], ◌∷◌, Bytes, length, ltb, not, if◌then◌else◌,
  Result, ok, err,
}
use partymixrust.ShieldedCsv.Data.{
  CoinEssence, Coin, Transaction, PaymentInitLocalInput, payment_init_input, coin, acct_state,
}
use partymixrust.ShieldedCsv.Platform.{Platform}
use partymixrust.ShieldedCsv.Primitives.{zero_bytes}
use partymixrust.ShieldedCsv.Payment.{tx_hash_of}
use partymixrust.Types.{
  MixerConfig, MixerWithdrawalRequest, WithdrawalDelivery, WithdrawalStatus, queued, PoolAccount,
}
use partymixrust.Wallet.{WalletState}
use partymixrust.Crypto.Pcd.{PcdBackend, PcdError, pcd_error_text}
use partymixrust.Communication.{
  MixerPayload, WithdrawalRequestPayload, withdrawal_request, withdrawal_delivery,
}
use partymixrust.Node.{MixerNode, current_nav}
use partymixrust.Pool.{PoolManager, PoolError, reserve_withdrawal, primary_account}

pub data WithdrawalError : Type 0 where
  insufficient_balance batching_disabled : WithdrawalError
  batch_too_large : ℕ → ℕ → WithdrawalError
  pool_error : PoolError → WithdrawalError
  processing_failed : String → WithdrawalError

pub record WithdrawalHandler : Type 0 where
  pub pool : PoolManager

-- `WithdrawalHandler::new`
abbrev pub new_withdrawal_handler : PoolManager → WithdrawalHandler
new_withdrawal_handler pool = record { pool = pool }

module _ (x : Platform) where
  -- `id` and `now` are the fresh `Uuid` and the clock's time.
  unfoldable pub queue_withdrawal :
      WithdrawalHandler
      → WalletState x
      → Bytes
      → WithdrawalRequestPayload x
      → x.Uuid
      → x.DateTime
      → WalletState x × Result WithdrawalError (MixerWithdrawalRequest x)
  queue_withdrawal self wallet user request id now =
      let service_fee = self.pool.config.withdrawal_service_fee in
      let (wallet', reserved) = reserve_withdrawal x wallet user request.amount service_fee in
      elim reserved [
        | err e ↦ (wallet', err (pool_error e))
        | ok _ ↦ (
          wallet',
          ok (record {
            id = id;
            user_id_hash = user;
            amount = request.amount;
            destination_address = request.destination_address;
            service_fee = service_fee;
            requested_at = now;
            status = queued;
          }),
        )
      ]

  -- The one output of a withdrawal, at index 1.
  abbrev pub output_coin : MixerWithdrawalRequest x → CoinEssence
  output_coin request = record {
    address = request.destination_address;
    amount = request.amount;
    idx = (0, 1);
  }

module _ (x : Platform) (b : PcdBackend x) where
  unfoldable pub withdrawal_input :
      WithdrawalHandler
      → MixerNode x b
      → MixerWithdrawalRequest x
      → PoolAccount x
      → Bytes
      → PaymentInitLocalInput x.PublicKey
  unfolding current_nav
  withdrawal_input self node request account randomness =
      let nav = current_nav x b node in
      record {
        acct_id = account.acct_id;
        acct_comm_rands = [];
        new_coins = output_coin x request ∷ [];
        fee = self.pool.config.publisher_fee;
        new_spent_accum = account.state.spent_accum;
        snmi_proof = [];
        new_nullifier_pk = account.acct_id;
        conditional_nav = nav;
        tx_hash_randomness = randomness;
        nullifier_tx_comm_pk = account.acct_id;
        nullifier_tx_comm = zero_bytes 32;
        nullifier_accum = nav;
        nap_proof = [];
      }

  unfoldable pub withdrawal_tx :
      MixerNode x b → MixerWithdrawalRequest x → PoolAccount x → Transaction x.PublicKey
  unfolding current_nav
  withdrawal_tx node request account = record {
    conditional_nav = current_nav x b node;
    prev_state = account.state.essence;
    prev_coins = [];
    new_state = account.state.essence;
    new_coins = output_coin x request ∷ [];
  }

  -- The coin that is handed to the user.
  unfoldable pub mock_coin : MixerNode x b → MixerWithdrawalRequest x → PoolAccount x → Bytes → Coin
  unfolding withdrawal_tx tx_hash_of current_nav
  mock_coin node request account randomness = record {
    essence = output_coin x request;
    tx_hash = tx_hash_of x (withdrawal_tx node request account) randomness;
    blockchain_loc = zero_bytes 6;
    nullifier_accum = current_nav x b node;
  }

  abbrev pub deliver :
      MixerWithdrawalRequest x
      → Coin
      → Result PcdError Bytes
      → Result WithdrawalError (WithdrawalDelivery x)
  deliver request c (err e) = err (processing_failed (pcd_error_text e))
  deliver request c (ok proof) =
      ok (record { request_id = request.id; coin = c; coin_proof = proof; tx_hash = c.tx_hash })

  abbrev pub prove_withdrawal :
      WithdrawalHandler
      → MixerNode x b
      → MixerWithdrawalRequest x
      → Bytes
      → Result PoolError (PoolAccount x)
      → Result WithdrawalError (WithdrawalDelivery x)
  prove_withdrawal self node request randomness (err e) = err (pool_error e)
  prove_withdrawal self node request randomness (ok account) =
      let c = mock_coin node request account randomness in
      deliver request c (
        b.prove b.keygen.0 (coin c)
          (payment_init_input (withdrawal_input self node request account randomness))
          (acct_state account.state ∷ []) (account.state_proof ∷ []))

  -- The wallet is only read. `randomness` is the draw of `rand::random`.
  unfoldable pub process_single_withdrawal :
      WithdrawalHandler
      → MixerNode x b
      → WalletState x
      → MixerWithdrawalRequest x
      → Bytes
      → Result WithdrawalError (WithdrawalDelivery x)
  unfolding mock_coin withdrawal_input
  process_single_withdrawal self node wallet request randomness =
      prove_withdrawal self node request randomness (primary_account x wallet)

  abbrev pub push_delivery :
      Result WithdrawalError (WithdrawalDelivery x)
      → Result WithdrawalError (List (WithdrawalDelivery x))
      → Result WithdrawalError (List (WithdrawalDelivery x))
  push_delivery (err e) rest = err e
  push_delivery (ok d) (err e) = err e
  push_delivery (ok d) (ok ds) = ok (d ∷ ds)

  -- The loop over the requests; the draw `i` is the randomness of request `i`.
  unfoldable pub process_all :
      WithdrawalHandler
      → MixerNode x b
      → WalletState x
      → (ℕ → Bytes)
      → ℕ
      → List (MixerWithdrawalRequest x)
      → Result WithdrawalError (List (WithdrawalDelivery x))
  process_all self node wallet draws i [] = ok []
  process_all self node wallet draws i (r ∷ rs) =
      push_delivery (process_single_withdrawal self node wallet r (draws i))
        (process_all self node wallet draws (suc i) rs)

  unfoldable pub process_batched_withdrawals :
      WithdrawalHandler
      → MixerNode x b
      → WalletState x
      → List (MixerWithdrawalRequest x)
      → MixerConfig
      → (ℕ → Bytes)
      → Result WithdrawalError (List (WithdrawalDelivery x))
  unfolding process_all
  process_batched_withdrawals self node wallet requests config draws =
      if not config.allow_batched_withdrawals
      then err batching_disabled
      else if ltb config.max_batch_size (length requests)
      then err (batch_too_large (length requests) config.max_batch_size)
      else process_all self node wallet draws 0 requests

module _ (x : Platform) where
  unfoldable pub build_delivery_payload : WithdrawalDelivery x → x.Uuid → MixerPayload x
  build_delivery_payload delivery session_id =
      withdrawal_delivery
        (record { session_id = session_id; coin = delivery.coin; coin_proof = delivery.coin_proof })

  unfoldable pub decode_request : MixerPayload x → Option (WithdrawalRequestPayload x)
  decode_request (withdrawal_request r) = some r
  decode_request payload = none
