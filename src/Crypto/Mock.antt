-- ===== src/Crypto/Mock.antt =====
-- partymixrust/src/crypto/mock.rs: the mock accumulators and the mock NISSHAC backend. `MockPcd` is in
-- `Pcd`. The text that `{:?}` prints is a parameter, and so is the key that secp256k1 derives.
pub mod Rollback
use partymixrust.Prelude.{
  ℕ, Bool, true, List, [], ◌∷◌, ◌++◌, Bytes, bytes_discrete, length, replicate, same, Result, ok,
}
use partymixrust.Prelude.Text.{ascii}
use partymixrust.ShieldedCsv.Data.{AccValue, ToSAccValue, CoinIdOnChain, ToSAccSetElement}
use partymixrust.ShieldedCsv.Platform.{Platform}
use partymixrust.ShieldedCsv.Primitives.{hash, zero_bytes}
use partymixrust.Crypto.Accumulators.{
  AccumulatorError, SpentAccumulatorBackend, NullifierAccumulatorBackend,
}
use partymixrust.Crypto.Nisshac.{NisshacBackend}

pub record MockSpentState : Type 0 where
  pub value : AccValue
  pub inserted : List CoinIdOnChain

pub record MockNullifierState (K : Type 0) : Type 0 where
  pub value : ToSAccValue
  pub sets : List (List (ToSAccSetElement K))

-- `Vec::pop`, whose answer is dropped.
unfoldable pub pop : {A : Type 0} → List A → List A
pop [] = []
pop (a ∷ []) = []
pop (a ∷ b ∷ bs) = a ∷ pop (b ∷ bs)

-- `==` of byte strings.
abbrev pub bytes_eq : Bytes → Bytes → Bool
bytes_eq a b = same (bytes_discrete a b)

module _ (x : Platform) (debug_ids : List CoinIdOnChain → Bytes) where
  -- `MockSpentAccumulator::prove_non_membership_and_insert`
  unfoldable pub mock_insert :
      MockSpentState → List CoinIdOnChain → Result AccumulatorError (MockSpentState × Bytes)
  mock_insert state ids =
      let inserted = state.inserted ++ ids in
      ok (record { value = hash x (debug_ids inserted); inserted = inserted }, ascii "mock_snmi")

  abbrev pub mock_spent_accumulator : SpentAccumulatorBackend
  mock_spent_accumulator = record {
    ManagerState = MockSpentState;
    Proof = Bytes;
    new_manager = record { value = zero_bytes 32; inserted = [] };
    value = λ state. state.value;
    prove_non_membership_and_insert = mock_insert;
    verify_non_membership_and_insert = λ old new ids proof. ok (bytes_eq proof (ascii "mock_snmi"));
  }

module _ (x : Platform) (debug_len : ℕ → Bytes) where
  -- `MockNullifierAccumulator::append_set`
  unfoldable pub mock_append_set :
      MockNullifierState x.PublicKey
      → List (ToSAccSetElement x.PublicKey)
      → MockNullifierState x.PublicKey
  mock_append_set state set =
      let sets = state.sets ++ set ∷ [] in
      record { value = hash x (debug_len (length sets)); sets = sets }

  -- `MockNullifierAccumulator::remove_set`
  unfoldable pub mock_remove_set : MockNullifierState x.PublicKey → MockNullifierState x.PublicKey
  unfolding pop
  mock_remove_set state =
      let sets = pop state.sets in record { value = hash x (debug_len (length sets)); sets = sets }

  abbrev pub mock_nullifier_accumulator : NullifierAccumulatorBackend x.PublicKey
  mock_nullifier_accumulator = record {
    ManagerState = MockNullifierState x.PublicKey;
    Proof = Bytes;
    new_manager = record { value = zero_bytes 32; sets = [] };
    value = λ state. state.value;
    append_set = mock_append_set;
    remove_set = mock_remove_set;
    prove_union_membership = λ state element. ok (ascii "mock_nm");
    prove_is_prefix = λ states target. ok (ascii "mock_nap");
    prove_distinct_element = λ a b. ok (ascii "mock_distinct");
    verify_union_membership = λ value element proof. ok (bytes_eq proof (ascii "mock_nm"));
    verify_is_prefix = λ values target proof. ok (bytes_eq proof (ascii "mock_nap"));
    verify_distinct_element = λ a b proof. ok (bytes_eq proof (ascii "mock_distinct"));
  }

abbrev pub mock_nisshac : (x : Platform) → x.PublicKey → NisshacBackend x
mock_nisshac x key = record {
  SecretKey = Bytes;
  Sig = Bytes;
  keygen = (replicate 32 1, key);
  sign_to_contract = λ sk message tx_hash. ok (ascii "mock_sig", tx_hash, replicate 32 2);
  aggregate = λ signatures. ok (ascii "mock_agg_sig");
  verify_aggregate = λ sig pks_and_msgs. ok (bytes_eq sig (ascii "mock_agg_sig"));
  commit_retrieve = λ sig index. replicate 32 3;
  commit_verify = λ comm tx_hash pk. ok true;
}
