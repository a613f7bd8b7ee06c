-- ===== src/Crypto/Accumulators.antt =====
-- partymixrust/src/crypto/accumulators.rs: the interfaces of the accumulator backends.
use Prim.Native.String.{String}
use partymixrust.Prelude.{Bool, List, Result}
use partymixrust.ShieldedCsv.Data.{AccValue, ToSAccValue, CoinIdOnChain, ToSAccSetElement}

pub data AccumulatorError : Type 0 where
  operation_failed : String → AccumulatorError

pub record SpentAccumulatorBackend : Type 1 where
  pub ManagerState : Type 0
  pub Proof : Type 0
  pub new_manager : ManagerState
  pub value : ManagerState → AccValue
  pub prove_non_membership_and_insert :
      ManagerState → List CoinIdOnChain → Result AccumulatorError (ManagerState × Proof)
  pub verify_non_membership_and_insert :
      AccValue → AccValue → List CoinIdOnChain → Proof → Result AccumulatorError Bool

-- `K` is the type of keys.
pub record NullifierAccumulatorBackend (K : Type 0) : Type 1 where
  pub ManagerState : Type 0
  pub Proof : Type 0
  pub new_manager : ManagerState
  pub value : ManagerState → ToSAccValue
  pub append_set : ManagerState → List (ToSAccSetElement K) → ManagerState
  pub remove_set : ManagerState → ManagerState
  pub prove_union_membership : ManagerState → ToSAccSetElement K → Result AccumulatorError Proof
  pub prove_is_prefix : List ManagerState → ManagerState → Result AccumulatorError Proof
  pub prove_distinct_element : ManagerState → ManagerState → Result AccumulatorError Proof
  pub verify_union_membership :
      ToSAccValue → ToSAccSetElement K → Proof → Result AccumulatorError Bool
  pub verify_is_prefix : List ToSAccValue → ToSAccValue → Proof → Result AccumulatorError Bool
  pub verify_distinct_element : ToSAccValue → ToSAccValue → Proof → Result AccumulatorError Bool
