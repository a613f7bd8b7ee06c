-- ===== src/ShieldedCsv/Data.antt =====
-- The data types of partymixrust/src/shielded_csv (primitives.rs and protocol.rs). `K` stands for
-- `PublicKey`, the x-only key of the crate secp256k1.
use partymixrust.Prelude.{ℕ, List, Bytes}

-- `Commitment([u8; 32])`, and likewise the other newtypes over byte arrays.
abbrev pub Commitment : Type 0
Commitment = Bytes

-- `Signature(Vec<u8>)`
abbrev pub Signature : Type 0
Signature = Bytes

abbrev pub SigCommitment : Type 0
SigCommitment = Bytes

abbrev pub AccValue : Type 0
AccValue = Bytes

abbrev pub ToSAccValue : Type 0
ToSAccValue = Bytes

-- `[u8; 6]`
abbrev pub BlockchainLocation : Type 0
BlockchainLocation = Bytes

-- `[u8; 34]` and `[u8; 8]`
abbrev pub CoinId : Type 0
CoinId = Bytes

abbrev pub CoinIdOnChain : Type 0
CoinIdOnChain = Bytes

-- `[u8; 2]`, the more significant byte first.
abbrev pub CoinIndex : Type 0
CoinIndex = ℕ × ℕ

pub record AggregateNullifier (K : Type 0) : Type 0 where
  pub pks : List K
  pub sig : Signature
  pub fee_acct_comm : Commitment

pub record CoinEssence : Type 0 where
  pub address : Commitment
  pub amount : ℕ
  pub idx : CoinIndex

pub record Coin : Type 0 where
  pub essence : CoinEssence
  pub tx_hash : Bytes
  pub blockchain_loc : BlockchainLocation
  pub nullifier_accum : ToSAccValue

pub record AcctStateEssence (K : Type 0) : Type 0 where
  pub id : K
  pub balance : ℕ
  pub nullifier_pk : K

pub record AcctState (K : Type 0) : Type 0 where
  pub essence : AcctStateEssence K
  pub spent_accum : AccValue
  pub nullifier_accum : ToSAccValue

pub record Transaction (K : Type 0) : Type 0 where
  pub conditional_nav : ToSAccValue
  pub prev_state : AcctStateEssence K
  pub prev_coins : List CoinId
  pub new_state : AcctStateEssence K
  pub new_coins : List CoinEssence

pub record PaymentInitLocalInput (K : Type 0) : Type 0 where
  pub acct_id : K
  pub acct_comm_rands : List Bytes
  pub new_coins : List CoinEssence
  pub fee : ℕ
  pub new_spent_accum : AccValue
  pub snmi_proof : Bytes
  pub new_nullifier_pk : K
  pub conditional_nav : ToSAccValue
  pub tx_hash_randomness : Bytes
  pub nullifier_tx_comm_pk : K
  pub nullifier_tx_comm : SigCommitment
  pub nullifier_accum : ToSAccValue
  pub nap_proof : Bytes

pub record PaymentInitOutputPartial (K : Type 0) : Type 0 where
  pub tx_hash : Bytes
  pub nullifier_pk : K
  pub nullifier_tx_comm : SigCommitment
  pub nullifier_accum : ToSAccValue

pub record PaymentInitOutput (K : Type 0) : Type 0 where
  pub partial_output : PaymentInitOutputPartial K
  pub acct_state_essence : AcctStateEssence K
  pub spent_accum : AccValue
  pub coin_essences : List CoinEssence

pub record PaymentInitOutputFee (K : Type 0) : Type 0 where
  pub partial_output : PaymentInitOutputPartial K
  pub fee : ℕ

pub record PaymentFinalizeLocalInput : Type 0 where
  pub fee_acct_comm : Commitment
  pub blockchain_loc : BlockchainLocation
  pub nullifier_accum : ToSAccValue
  pub nm_proof : Bytes
  pub nap_proof : Bytes

-- `IssuanceProof` has no field.
pub data LocalInput (K : Type 0) : Type 0 where
  issuance_input : LocalInput K
  payment_init_input : PaymentInitLocalInput K → LocalInput K
  payment_finalize_input : PaymentFinalizeLocalInput → LocalInput K

pub data EdgeLabel (K : Type 0) : Type 0 where
  acct_state : AcctState K → EdgeLabel K
  coin : Coin → EdgeLabel K
  init_output : PaymentInitOutput K → EdgeLabel K
  fee_output : PaymentInitOutputFee K → EdgeLabel K

-- `(nullifier_pk, tx_comm, blockchain_loc, fee_acct_comm)`
abbrev pub ToSAccSetElement : Type 0 → Type 0
ToSAccSetElement K = K × SigCommitment × BlockchainLocation × Commitment
