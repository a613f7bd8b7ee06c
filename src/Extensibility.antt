-- ===== src/Extensibility.antt =====
-- partymixrust/src/extensibility.rs: the extension points, and the two placeholders that implement
-- one. A session that is mutated is returned.
use Prim.Native.String.{String}
use partymixrust.Prelude.{ℕ, Bool, true, Option, some, List, [], Bytes, Result}
use partymixrust.ShieldedCsv.Data.{AcctStateEssence, CoinEssence, ToSAccValue}

pub record SharedAccountPolicy : Type 1 where
  pub SigningSession : Type 0
  pub threshold : ℕ
  pub total_owners : ℕ
  pub begin_signing_session : Bytes → SigningSession
  pub contribute_signature : SigningSession → Bytes → SigningSession × Bool
  pub finalize_signature : SigningSession → Option Bytes

pub record TimelockPolicy : Type 0 where
  pub unlock_height : ℕ
  pub is_unlocked : ℕ → Bool

pub record SwapSession : Type 0 where
  pub session_id : Bytes
  pub conditional_nav : ToSAccValue

pub data SwapError : Type 0 where
  failed : String → SwapError

-- `K` is the type of keys.
pub record AtomicSwapCoordinator (K : Type 0) : Type 0 where
  pub initiate_swap : CoinEssence → K → ToSAccValue → Result SwapError SwapSession
  pub complete_swap : SwapSession → Result SwapError (Unit {0})

pub record AssetId (A : Type 0) : Type 0 where
  pub zero_asset : A

pub data BtcAsset : Type 0 where
  btc_asset : BtcAsset

abbrev pub btc_asset_id : AssetId BtcAsset
btc_asset_id = record { zero_asset = btc_asset }

pub record MultiAssetCoinEssence (A : Type 0) : Type 0 where
  pub asset : A
  pub essence : CoinEssence

pub record PoolGovernance : Type 0 where
  pub authorize_withdrawal : Bytes → ℕ → Bool
  pub authorize_consolidation : Bytes → Bool

abbrev pub single_operator_policy : SharedAccountPolicy
single_operator_policy = record {
  SigningSession = Bytes;
  threshold = 1;
  total_owners = 1;
  begin_signing_session = λ tx_hash. [];
  contribute_signature = λ session contribution. (session, true);
  finalize_signature = λ session. some [];
}

abbrev pub no_timelock : TimelockPolicy
no_timelock = record { unlock_height = 0; is_unlocked = λ current_height. true }

pub record SharedPoolAccountMeta (K : Type 0) : Type 0 where
  pub essence : AcctStateEssence K
  pub threshold : ℕ
  pub owner_pks : List K
