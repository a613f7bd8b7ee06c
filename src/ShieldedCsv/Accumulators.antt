-- ===== src/ShieldedCsv/Accumulators.antt =====
-- The accumulator managers `AccM` and `ToSAccM` of partymixrust/src/shielded_csv/primitives.rs.
use partymixrust.Prelude.{ℕ, ◌+◌, ◌%◌, ◌^◌, List, [], Bytes}
use partymixrust.Prelude.Words.{saturating_sub}
use partymixrust.ShieldedCsv.Data.{AccValue, ToSAccValue, CoinIdOnChain, ToSAccSetElement}
use partymixrust.ShieldedCsv.Platform.{Platform}
use partymixrust.ShieldedCsv.Primitives.{hash, zero_bytes}

pub record AccM : Type 0 where
  pub value : AccValue

abbrev pub new_acc_m : AccM
new_acc_m = record { value = zero_bytes 32 }

-- `AccM::prove_non_membership_and_insert`: the state is only copied, and the proof is empty.
unfoldable pub prove_non_membership_and_insert : AccM → List CoinIdOnChain → AccM × Bytes
prove_non_membership_and_insert state elements = (state, [])

-- `AccV::new`
abbrev pub new_acc_value : AccValue
new_acc_value = zero_bytes 32

pub record ToSAccM : Type 0 where
  pub value : ToSAccValue
  pub depth : ℕ

abbrev pub new_tos_acc_m : ToSAccM
new_tos_acc_m = record { value = zero_bytes 32; depth = 0 }

-- `ToSAccM::append_set`; `depth` is a `u32`.
unfoldable pub append_set : (x : Platform) → ToSAccM → List (ToSAccSetElement x.PublicKey) → ToSAccM
append_set x state set = record { value = hash x state.value; depth = (state.depth + 1) % 2 ^ 32 }

-- `ToSAccM::remove_set`: the depth goes down, and the value stays.
unfoldable pub remove_set : ToSAccM → ToSAccM
remove_set state = record { value = state.value; depth = saturating_sub state.depth 1 }

-- The provers of `ToSAccM` read nothing, and every proof is empty.
module _ (x : Platform) where
  unfoldable pub prove_union_membership : ToSAccM → ToSAccSetElement x.PublicKey → Bytes
  prove_union_membership state element = []

  unfoldable pub prove_is_prefix : List ToSAccM → ToSAccM → Bytes
  prove_is_prefix states state' = []

  unfoldable pub prove_distinct_element : ToSAccM → ToSAccM → Bytes
  prove_distinct_element state state' = []
