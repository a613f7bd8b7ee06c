-- ===== src/ShieldedCsv/Primitives.antt =====
-- partymixrust/src/shielded_csv/primitives.rs: the hash, the commitment, and the checks that the
-- predicates call. The checks stand behind the record `Primitives`, which the predicates take;
-- `stubs` holds the bodies of the source.
use partymixrust.Prelude.{ℕ, Bool, true, List, ◌++◌, Bytes, replicate}
use partymixrust.Prelude.Digits.{to_le_bytes}
use partymixrust.ShieldedCsv.Data.{
  Commitment, Signature, SigCommitment, AccValue, ToSAccValue, CoinIdOnChain, ToSAccSetElement,
}
use partymixrust.ShieldedCsv.Platform.{Platform}

abbrev pub zero_bytes : ℕ → Bytes
zero_bytes n = replicate n 0

module _ (x : Platform) where
  -- The eight bytes of the hasher's `u64`, then 24 zero bytes.
  unfoldable pub hash : Bytes → Bytes
  hash data_bytes = to_le_bytes 8 (x.default_hash data_bytes) ++ zero_bytes 24

  -- `Commitment::commit`
  unfoldable pub commit : Bytes → Bytes → Commitment
  commit msg rand = hash (msg ++ rand)

  -- The checks of `Signature`, `AccV` and `ToSAccV`.
  pub record Primitives : Type 0 where
    pub agg_verify : Signature → List (x.PublicKey × x.Message) → Bool
    pub commit_retrieve : Signature → ℕ → SigCommitment
    pub commit_verify : SigCommitment → Bytes → x.PublicKey → Bool
    pub verify_non_membership_and_insert : AccValue → AccValue → List CoinIdOnChain → Bytes → Bool
    pub verify_union_membership : ToSAccValue → ToSAccSetElement x.PublicKey → Bytes → Bool
    pub verify_is_prefix : List ToSAccValue → ToSAccValue → Bytes → Bool
    pub verify_distinct_element : ToSAccValue → ToSAccValue → Bytes → Bool

  -- The bodies in the source, which read nothing.
  abbrev pub agg_verify_stub : Signature → List (x.PublicKey × x.Message) → Bool
  agg_verify_stub sig pm_aggd = true

  abbrev pub commit_retrieve_stub : Signature → ℕ → SigCommitment
  commit_retrieve_stub sig i = zero_bytes 32

  abbrev pub commit_verify_stub : SigCommitment → Bytes → x.PublicKey → Bool
  commit_verify_stub comm msg pk = true

  abbrev pub non_membership_stub : AccValue → AccValue → List CoinIdOnChain → Bytes → Bool
  non_membership_stub v v' elements proof = true

  abbrev pub union_membership_stub : ToSAccValue → ToSAccSetElement x.PublicKey → Bytes → Bool
  union_membership_stub v element proof = true

  abbrev pub is_prefix_stub : List ToSAccValue → ToSAccValue → Bytes → Bool
  is_prefix_stub v v' proof = true

  abbrev pub distinct_element_stub : ToSAccValue → ToSAccValue → Bytes → Bool
  distinct_element_stub v v' proof = true

  -- The checks as the source has them.
  abbrev pub stubs : Primitives
  stubs = record {
    agg_verify = agg_verify_stub;
    commit_retrieve = commit_retrieve_stub;
    commit_verify = commit_verify_stub;
    verify_non_membership_and_insert = non_membership_stub;
    verify_union_membership = union_membership_stub;
    verify_is_prefix = is_prefix_stub;
    verify_distinct_element = distinct_element_stub;
  }
