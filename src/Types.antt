-- ===== src/Types.antt =====
-- partymixrust/src/types.rs: the mixer's data, and the available balance of a ledger entry.
-- Amounts are `u64`, confirmations and depths `u32`.
use Prim.Native.String.{String}
use partymixrust.Prelude.{ℕ, Bool, false, Option, Bytes}
use partymixrust.Prelude.Words.{saturating_sub}
use partymixrust.ShieldedCsv.Data.{Commitment, CoinIdOnChain, Coin, AcctState}
use partymixrust.ShieldedCsv.Platform.{Platform}

pub data DepositStatus : Type 0 where
  pending_consolidation consolidated rejected : DepositStatus

pub data WithdrawalStatus : Type 0 where
  queued processing completed failed : WithdrawalStatus

pub data AuditEventType : Type 0 where
  deposit_received deposit_verified deposit_rejected : AuditEventType
  consolidation_started consolidation_completed : AuditEventType
  withdrawal_queued withdrawal_completed withdrawal_batched : AuditEventType
  nullifier_published reorg_handled : AuditEventType

module _ (x : Platform) where
  pub record MixerDeposit : Type 0 where
    pub id : x.Uuid
    pub user_id_hash : Bytes
    pub amount : ℕ
    pub credited_at : x.DateTime
    pub source_coin_on_chain_id : Option CoinIdOnChain
    pub status : DepositStatus

  pub record MixerWithdrawalRequest : Type 0 where
    pub id : x.Uuid
    pub user_id_hash : Bytes
    pub amount : ℕ
    pub destination_address : Commitment
    pub service_fee : ℕ
    pub requested_at : x.DateTime
    pub status : WithdrawalStatus

  pub record PoolAccount : Type 0 where
    pub id : x.Uuid
    pub label : String
    pub acct_id : x.PublicKey
    pub state : AcctState x.PublicKey
    pub state_proof : Bytes
    pub is_primary : Bool

  pub record PoolCoin : Type 0 where
    pub coin : Coin
    pub proof : Bytes
    pub pool_account_id : x.Uuid

  pub record WithdrawalDelivery : Type 0 where
    pub request_id : x.Uuid
    pub coin : Coin
    pub coin_proof : Bytes
    pub tx_hash : Bytes

  pub record PrivacyAuditEvent : Type 0 where
    pub timestamp : x.DateTime
    pub event_type : AuditEventType
    pub correlation_id : x.Uuid

  pub record DepositReceipt : Type 0 where
    pub deposit_id : x.Uuid
    pub credited_amount : ℕ
    pub status : DepositStatus

pub record LiabilityEntry : Type 0 where
  pub user_id_hash : Bytes
  pub credited : ℕ
  pub withdrawn : ℕ

-- `LiabilityEntry::available`
unfoldable pub available : LiabilityEntry → ℕ
available e = saturating_sub e.credited e.withdrawn

pub record MixerConfig : Type 0 where
  pub deposit_confirmations : ℕ
  pub withdrawal_service_fee : ℕ
  pub publisher_fee : ℕ
  pub conditional_nav_depth : ℕ
  pub allow_batched_withdrawals : Bool
  pub max_batch_size : ℕ

-- `MixerConfig::default`
abbrev pub default_config : MixerConfig
default_config = record {
  deposit_confirmations = 6;
  withdrawal_service_fee = 1000;
  publisher_fee = 500;
  conditional_nav_depth = 6;
  allow_batched_withdrawals = false;
  max_batch_size = 1;
}
