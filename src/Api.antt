-- ===== src/Api.antt =====
-- partymixrust/src/api/messages.rs: the requests, the responses and the state of the HTTP interface.
pub mod Http
pub mod Sessions
pub mod Quote
pub mod Service
pub mod Concurrent
use Prim.Native.String.{String}
use partymixrust.Prelude.{ℕ, Bool, true, false, Option, none, some, List, Bytes, if◌then◌else◌}
use partymixrust.Prelude.HashMap.{HashMap}
use partymixrust.ShieldedCsv.Platform.{Platform}
use partymixrust.Types.{MixerConfig, DepositReceipt, WithdrawalDelivery}

pub record CreateSessionRequest : Type 0 where
  pub user_id_hash : String

pub record ConfigSummary : Type 0 where
  pub withdrawal_service_fee : ℕ
  pub allow_batched_withdrawals : Bool
  pub linkability_warning : Option String

abbrev pub batching_warning : String
batching_warning =
    "Batched withdrawals enabled: coins from the same transaction are linkable if recipients communicate (Section 6.3)."

-- `ConfigSummary::from`
unfoldable pub summary_of : MixerConfig → ConfigSummary
summary_of c = record {
  withdrawal_service_fee = c.withdrawal_service_fee;
  allow_batched_withdrawals = c.allow_batched_withdrawals;
  linkability_warning = if c.allow_batched_withdrawals then some batching_warning else none;
}

pub record HealthResponse : Type 0 where
  pub status : String
  pub chain_height : ℕ
  pub pool_solvency_ok : Bool

pub record MetricsResponse : Type 0 where
  pub pending_deposits : ℕ
  pub pending_withdrawals : ℕ
  pub total_liabilities : ℕ
  pub pool_value : ℕ

module _ (x : Platform) where
  pub record OffChainTransferEnvelope : Type 0 where
    pub session_id : x.Uuid
    pub encrypted_payload_b64 : String
    pub channel : String

  pub record CreateSessionResponse : Type 0 where
    pub session_id : x.Uuid
    pub mixer_deposit_address_commitment : String
    pub config_summary : ConfigSummary

  pub record SubmitDepositRequest : Type 0 where
    pub envelope : OffChainTransferEnvelope

  pub record SubmitDepositResponse : Type 0 where
    pub receipt : DepositReceipt x

  pub record SubmitWithdrawalRequest : Type 0 where
    pub envelope : OffChainTransferEnvelope

  pub record SubmitWithdrawalResponse : Type 0 where
    pub withdrawal_id : x.Uuid
    pub status : String

  pub record WithdrawalStatusResponse : Type 0 where
    pub withdrawal_id : x.Uuid
    pub status : String
    pub delivery_envelope : Option OffChainTransferEnvelope

  pub record SessionRecord : Type 0 where
    pub user_id_hash : Bytes
    pub deposits : List (DepositReceipt x)
    pub withdrawals : List (WithdrawalDelivery x)

  pub record ApiState : Type 0 where
    pub sessions : HashMap x.Uuid SessionRecord
