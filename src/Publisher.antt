-- ===== src/Publisher.antt =====
-- partymixrust/src/publisher.rs: collecting nullifiers and building the aggregate.
pub mod Fees
pub mod Published
pub mod Rounds
pub mod Earnings
use Prim.Native.String.{String}
use partymixrust.Prelude.{
  ℕ, Bool, true, false, List, [], ◌∷◌, ◌++◌, map, Bytes, length, ltb, if◌then◌else◌, Result, ok,
  err, Outcome, returned, panicked,
}
use partymixrust.ShieldedCsv.Data.{AggregateNullifier, Signature, Commitment, PaymentInitOutputFee}
use partymixrust.ShieldedCsv.Platform.{Platform}
use partymixrust.ShieldedCsv.Primitives.{Primitives}
use partymixrust.Types.{MixerConfig}
use partymixrust.Crypto.Nisshac.{
  NisshacBackend, NisshacError, nisshac_error_text, state_update_message,
}

pub data PublisherError : Type 0 where
  invalid_fee_proof : PublisherError
  aggregation_failed : String → PublisherError
  -- expected, actual
  fee_mismatch : ℕ → ℕ → PublisherError

-- `Vec::is_empty`
abbrev pub is_empty : {A : Type 0} → List A → Bool
is_empty [] = true
is_empty (a ∷ as') = false

module _ (x : Platform) (n : NisshacBackend x) where
  pub record PendingNullifier : Type 0 where
    pub nullifier_pk : x.PublicKey
    pub signature : n.Sig
    pub fee_output : PaymentInitOutputFee x.PublicKey
    pub fee_proof : Bytes

  pub record Publisher : Type 0 where
    pub config : MixerConfig
    pub pending : List PendingNullifier
    pub fee_address : Commitment

  -- `Publisher::new`
  unfoldable pub new_publisher : MixerConfig → Commitment → Publisher
  new_publisher config fee_address = record {
    config = config;
    pending = [];
    fee_address = fee_address;
  }

  unfoldable pub submit_nullifier :
      Publisher → PendingNullifier → Publisher × Result PublisherError Unit
  submit_nullifier self pending =
      if ltb pending.fee_output.fee self.config.publisher_fee
      then (self, err (fee_mismatch self.config.publisher_fee pending.fee_output.fee))
      else (record self { pending = self.pending ++ pending ∷ [] }, ok tt)

  -- From the backend's answer.
  abbrev pub aggregate_of :
      Publisher
      → Result NisshacError Signature
      → Result PublisherError (AggregateNullifier x.PublicKey)
  aggregate_of self (err e) = err (aggregation_failed (nisshac_error_text e))
  aggregate_of self (ok agg) = ok (record {
    pks = map (λ (q : PendingNullifier). q.nullifier_pk) self.pending;
    sig = agg;
    fee_acct_comm = self.fee_address;
  })

  abbrev pub aggregate_with :
      Publisher
      → Outcome x.Message
      → Outcome (Result PublisherError (AggregateNullifier x.PublicKey))
  aggregate_with self panicked = panicked
  aggregate_with self (returned msg) = returned (
      aggregate_of self (
        n.aggregate
          (map (λ (q : PendingNullifier). (q.signature, q.nullifier_pk, msg)) self.pending)))

  unfoldable pub build_aggregate_nullifier :
      Publisher → Outcome (Result PublisherError (AggregateNullifier x.PublicKey))
  build_aggregate_nullifier self =
      if is_empty self.pending
      then returned (err (aggregation_failed "no pending nullifiers"))
      else aggregate_with self (state_update_message x)

  unfoldable pub clear_pending : Publisher → Publisher
  clear_pending self = record self { pending = [] }

  unfoldable pub pending_count : Publisher → ℕ
  pending_count self = length self.pending

module _ (x : Platform) (p : Primitives x) where
  abbrev pub agg_verify_with : AggregateNullifier x.PublicKey → Outcome x.Message → Outcome Bool
  agg_verify_with agg panicked = panicked
  agg_verify_with agg (returned msg) =
      returned (p.agg_verify agg.sig (map (λ pk. (pk, msg)) agg.pks))

  unfoldable pub verify_aggregate_nullifier : AggregateNullifier x.PublicKey → Outcome Bool
  verify_aggregate_nullifier agg = agg_verify_with agg (state_update_message x)
