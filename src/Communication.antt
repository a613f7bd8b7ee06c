-- ===== src/Communication.antt =====
-- partymixrust/src/communication.rs: the off-chain payloads and their encrypted envelope.
use Prim.Native.String.{String}
use partymixrust.Prelude.{ℕ, Result, Option, ◌>>=◌, [], Bytes}
use partymixrust.ShieldedCsv.Data.{Coin, Commitment}
use partymixrust.ShieldedCsv.Platform.{Platform}
use partymixrust.ShieldedCsv.Primitives.{zero_bytes}

pub record EncryptedMessage : Type 0 where
  pub ciphertext : Bytes
  pub recipient_key_id : Bytes
  pub nonce : Bytes
  pub version : ℕ

pub data ErrorCode : Type 0 where
  invalid_proof insufficient_balance rate_limited batching_disabled internal_error : ErrorCode

pub data RecommendedChannel : Type 0 where
  nostr_dm signal mls : RecommendedChannel

pub data ChannelError : Type 0 where
  failed : String → ChannelError

-- The trait of the transports, which are not in the repository. Its methods reach the world, so a
-- channel has a state that they pass on.
pub record SecureChannel : Type 1 where
  pub State : Type 0
  pub send : State → EncryptedMessage → State × Result ChannelError Unit
  pub receive : State → State × Result ChannelError EncryptedMessage

module _ (x : Platform) where
  pub record DepositPayload : Type 0 where
    pub session_id : x.Uuid
    pub coin : Coin
    pub coin_proof : Bytes
    pub address_opening_rand : Bytes

  pub record WithdrawalRequestPayload : Type 0 where
    pub session_id : x.Uuid
    pub amount : ℕ
    pub destination_address : Commitment
    pub destination_opening_rand : Bytes

  pub record WithdrawalDeliveryPayload : Type 0 where
    pub session_id : x.Uuid
    pub coin : Coin
    pub coin_proof : Bytes

  pub record DepositAckPayload : Type 0 where
    pub session_id : x.Uuid
    pub deposit_id : x.Uuid
    pub credited_amount : ℕ

  pub record ErrorPayload : Type 0 where
    pub session_id : x.Uuid
    pub code : ErrorCode

  pub data MixerPayload : Type 0 where
    deposit : DepositPayload → MixerPayload
    withdrawal_request : WithdrawalRequestPayload → MixerPayload
    withdrawal_delivery : WithdrawalDeliveryPayload → MixerPayload
    deposit_ack : DepositAckPayload → MixerPayload
    error : ErrorPayload → MixerPayload

  -- `serde_json::to_vec` and `from_slice` at `MixerPayload`; `none` is an `Err`.
  pub record Codec : Type 0 where
    pub to_vec : MixerPayload → Bytes
    pub from_slice : Bytes → Option MixerPayload

  module _ (codec : Codec) where
    unfoldable pub wrap_payload : MixerPayload → (Bytes → Bytes) → EncryptedMessage
    wrap_payload payload encrypt = record {
      ciphertext = encrypt (codec.to_vec payload);
      recipient_key_id = zero_bytes 32;
      nonce = [];
      version = 1;
    }

    unfoldable pub unwrap_payload : EncryptedMessage → (Bytes → Option Bytes) → Option MixerPayload
    unwrap_payload msg decrypt = do plaintext ← decrypt msg.ciphertext; codec.from_slice plaintext
