-- ===== src/Tests/Payments.antt =====
-- Runs of the payment and compliance predicates.
use partymixrust.Prelude.{
  ◌≡◌, ◌↔◌, ◌⊎◌, refl, none, true, some, List, [], ◌∷◌, arith, map, Apart, returned, panicked, ◌+◌,
  ◌*◌, bytes_discrete,
}
use partymixrust.Prelude.Words.{wrapping_sum, total}
use partymixrust.Prelude.Digits.{to_le_bytes}
use partymixrust.ShieldedCsv.Data.{
  AcctState, Coin, CoinEssence, coin, fee_output, payment_finalize_input,
}
use partymixrust.ShieldedCsv.Primitives.{stubs, hash, commit, zero_bytes}
use partymixrust.ShieldedCsv.Payment.{
  checked_total, indices_after, indices_ok, coin_id, on_chain_id, tx_hash_of, coins_owned,
  balance_after, payment_checks, settle, payment_init, payment_finalize_internal,
  payment_finalize_fee, payment_finalize, located, fee_idx,
}
use partymixrust.ShieldedCsv.Payment.Balance.{finalized_value}
use partymixrust.ShieldedCsv.Payment.Indices.{OtherIds, finalized-Apart}
use partymixrust.ShieldedCsv.Payment.Ownership.{Opened, readdress, payment_init_unopened}
use partymixrust.ShieldedCsv.Compliance.{compliance_predicate}
use partymixrust.ShieldedCsv.Compliance.Trees.{Proven, Proven-none}
use partymixrust.ShieldedCsv.Compliance.Rules.{Complies}
use partymixrust.ShieldedCsv.Compliance.Completeness.{compliance_predicate_iff}
use partymixrust.Tests.Data.{
  tiny, live, opening, a_coin, account_state, output, payment, made, made_fee, finalization,
}

-- 50 come in, 55 go out, and the first new coin, of 5, is dropped.
run_live :
    payment_init tiny live account_state
      (a_coin ∷ [])
      (payment (opening ∷ []) (output 5 1 ∷ output 25 2 ∷ []) 5)
    ≡ returned (some (made 25 9 (output 25 2 ∷ []), made_fee 5))
unfolding payment_init payment_checks settle coins_owned balance_after checked_total wrapping_sum
    indices_ok indices_after commit hash tx_hash_of to_le_bytes coin_id on_chain_id bytes_discrete
run_live = refl

run_stubs :
    payment_init tiny
      (stubs tiny)
      account_state
      (a_coin ∷ [])
      (payment (opening ∷ []) (output 5 1 ∷ output 25 2 ∷ []) 5)
    ≡ returned (some (made 10 9 [], made_fee 0))
unfolding payment_init payment_checks settle coins_owned balance_after checked_total wrapping_sum
    indices_ok indices_after commit hash tx_hash_of to_le_bytes coin_id on_chain_id bytes_discrete
run_stubs = refl

finalized-Apart_example : Apart OtherIds (
    located tiny
      (made_fee 5).partial_output
      finalization
      (record { address = zero_bytes 32; amount = 5; idx = fee_idx })
    ∷ map (located tiny (made_fee 5).partial_output finalization) (output 25 2 ∷ []))
unfolding payment_finalize payment_finalize_fee payment_finalize_internal
finalized-Apart_example =
    finalized-Apart tiny live account_state (a_coin ∷ [])
      (payment (opening ∷ []) (output 5 1 ∷ output 25 2 ∷ []) 5) (made 25 9 (output 25 2 ∷ []))
      (made_fee 5) run_live finalization
      (record {
        essence = (made 25 9 []).acct_state_essence;
        spent_accum = zero_bytes 32;
        nullifier_accum = zero_bytes 32;
      })
      (map (located tiny (made_fee 5).partial_output finalization) (output 25 2 ∷ []))
      (located tiny (made_fee 5).partial_output finalization
        (record { address = zero_bytes 32; amount = 5; idx = fee_idx }))
      refl refl

run_empty :
    payment_init tiny live account_state (a_coin ∷ []) (payment (opening ∷ []) [] 0) ≡ panicked
unfolding payment_init payment_checks settle coins_owned balance_after checked_total wrapping_sum
    indices_ok indices_after commit hash tx_hash_of to_le_bytes coin_id on_chain_id bytes_discrete
run_empty = refl

compliance_predicate_iff_example :
    (compliance_predicate tiny
        (stubs tiny)
        (coin a_coin)
        (payment_finalize_input finalization)
        (fee_output (made_fee 5) ∷ [])
      ≡ returned true)
    ↔ Complies tiny
        (stubs tiny)
        (coin a_coin)
        (payment_finalize_input finalization)
        (fee_output (made_fee 5) ∷ [])
compliance_predicate_iff_example =
    compliance_predicate_iff tiny (stubs tiny) (coin a_coin) (payment_finalize_input finalization)
      (fee_output (made_fee 5) ∷ [])

abbrev new_state : AcctState tiny.PublicKey
new_state = record {
  essence = (made 25 9 []).acct_state_essence;
  spent_accum = zero_bytes 32;
  nullifier_accum = zero_bytes 32;
}

abbrev fee_coin : Coin
fee_coin =
    located tiny (made_fee 5).partial_output finalization
      (record { address = zero_bytes 32; amount = 5; idx = fee_idx })

Proven-none_example : ¬ Proven tiny live (coin a_coin)
Proven-none_example = Proven-none tiny live (coin a_coin)

finalized_value_example :
    (first : CoinEssence) × (rest : List CoinEssence) × (output 5 1 ∷ output 25 2 ∷ []
      ≡ first ∷ rest)
    × (output 25 2 ∷ [] ≡ rest)
    × (25 + 25 + 5 + first.amount ≡ 50 + 2 * 5)
unfolding total payment_finalize payment_finalize_fee payment_finalize_internal
finalized_value_example =
    finalized_value tiny live account_state (a_coin ∷ [])
      (payment (opening ∷ []) (output 5 1 ∷ output 25 2 ∷ []) 5) (made 25 9 (output 25 2 ∷ []))
      (made_fee 5) run_live finalization new_state
      (map (located tiny (made_fee 5).partial_output finalization) (output 25 2 ∷ [])) fee_coin
      (omega arith) refl refl refl

-- The owner's payment, and the one without openings that takes the same coin from another address.
payment_init_unopened_example :
    (Opened tiny (tiny.serialize 1) (a_coin ∷ []) (opening ∷ [])
      × (payment_init tiny live account_state
            (a_coin ∷ [])
            (payment (opening ∷ []) (output 5 1 ∷ output 25 2 ∷ []) 5)
          ≡ payment_init tiny live account_state
              (readdress (zero_bytes 32) a_coin ∷ [])
              (payment [] (output 5 1 ∷ output 25 2 ∷ []) 5)))
    ⊎ (¬ Opened tiny (tiny.serialize 1) (a_coin ∷ []) (opening ∷ [])
        × (payment_init tiny live account_state
              (a_coin ∷ [])
              (payment (opening ∷ []) (output 5 1 ∷ output 25 2 ∷ []) 5)
            ≡ returned none))
payment_init_unopened_example =
    payment_init_unopened tiny live account_state
      (payment (opening ∷ []) (output 5 1 ∷ output 25 2 ∷ []) 5) (zero_bytes 32) (a_coin ∷ [])
