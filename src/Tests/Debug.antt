-- ===== src/Tests/Debug.antt =====
-- Runs of the payment and compliance predicates in a debug build.
use partymixrust.Prelude.{
  ◌≡◌, ◌↔◌, ◌⊎◌, refl, Bool, [], ◌∷◌, arith, returned, panicked, bytes_discrete,
}
use partymixrust.Prelude.Words.{u64_max, total}
use partymixrust.Prelude.Digits.{to_le_bytes}
use partymixrust.ShieldedCsv.Data.{AcctState, coin, payment_init_input, acct_state}
use partymixrust.ShieldedCsv.Primitives.{stubs, hash, commit}
use partymixrust.ShieldedCsv.Payment.{checked_total, coins_owned, payment_init}
use partymixrust.ShieldedCsv.Payment.Panics.{Exposed}
use partymixrust.ShieldedCsv.Compliance.{compliance_predicate}
use partymixrust.ShieldedCsv.Debug.{
  add_debug, sum_debug, funds_debug, coins_sum, balance_after_debug, payment_init_debug,
  compliance_predicate_debug,
}
use partymixrust.ShieldedCsv.Debug.Panics.{Overflows, payment_init_debug_panics_iff}
use partymixrust.ShieldedCsv.Debug.Returns.{compliance_predicate_debug_returns}
use partymixrust.Tests.Data.{tiny, live, opening, a_coin, account_state, output, payment}

-- The account has the greatest balance there is.
abbrev full : AcctState tiny.PublicKey
full = record account_state { essence = record account_state.essence { balance = u64_max } }

-- With the checks of the source.
run_overflow :
    payment_init_debug tiny
      (stubs tiny)
      full
      (a_coin ∷ [])
      (payment (opening ∷ []) (output 5 1 ∷ []) 5)
    ≡ panicked
unfolding payment_init_debug coins_owned balance_after_debug coins_sum checked_total funds_debug
    sum_debug add_debug commit hash to_le_bytes bytes_discrete
run_overflow = refl

payment_init_debug_panics_iff_example :
    ((payment_init_debug tiny
          (stubs tiny)
          full
          (a_coin ∷ [])
          (payment (opening ∷ []) (output 5 1 ∷ []) 5)
        ≡ panicked)
      ↔ (Overflows tiny full (a_coin ∷ []) (payment (opening ∷ []) (output 5 1 ∷ []) 5)
          ⊎ Exposed tiny full
              (a_coin ∷ [])
              (payment (opening ∷ []) (output 5 1 ∷ []) 5)
              (stubs tiny)))
    × ((payment_init tiny
            (stubs tiny)
            full
            (a_coin ∷ [])
            (payment (opening ∷ []) (output 5 1 ∷ []) 5)
          ≡ panicked)
        ↔ Exposed tiny full (a_coin ∷ []) (payment (opening ∷ []) (output 5 1 ∷ []) 5) (stubs tiny))
payment_init_debug_panics_iff_example =
    payment_init_debug_panics_iff tiny full (a_coin ∷ [])
      (payment (opening ∷ []) (output 5 1 ∷ []) 5) (stubs tiny)

compliance_predicate_debug_returns_example :
    (v : Bool) × (compliance_predicate_debug tiny live
        (coin a_coin)
        (payment_init_input (payment (opening ∷ []) (output 5 1 ∷ []) 5))
        (acct_state account_state ∷ coin a_coin ∷ [])
      ≡ returned v)
    × (compliance_predicate tiny live
          (coin a_coin)
          (payment_init_input (payment (opening ∷ []) (output 5 1 ∷ []) 5))
          (acct_state account_state ∷ coin a_coin ∷ [])
        ≡ returned v)
unfolding total
compliance_predicate_debug_returns_example =
    compliance_predicate_debug_returns tiny live (coin a_coin)
      (payment_init_input (payment (opening ∷ []) (output 5 1 ∷ []) 5))
      (acct_state account_state ∷ coin a_coin ∷ []) (omega arith) (omega arith)
