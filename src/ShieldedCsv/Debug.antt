-- ===== src/ShieldedCsv/Debug.antt =====
-- `payment_init` and the compliance predicate of partymixrust/src/shielded_csv/protocol.rs in a debug
-- build, where the `sum` and the `+` of u64 panic when they overflow.
pub mod Additions
pub mod Panics
pub mod Returns
use partymixrust.Prelude.{
  ℕ, ◌+◌, Bool, false, Option, none, some, List, [], ◌∷◌, ltb, if◌then◌else◌, ◌>>=◌, Outcome,
  returned, panicked,
}
use partymixrust.Prelude.Words.{u64_max, checked_sub}
use partymixrust.ShieldedCsv.Data.{
  Coin, AcctState, PaymentInitLocalInput, PaymentInitOutput, PaymentInitOutputFee, LocalInput,
  payment_init_input, EdgeLabel, acct_state, coin,
}
use partymixrust.ShieldedCsv.Accumulators.{new_acc_value}
use partymixrust.ShieldedCsv.Platform.{Platform}
use partymixrust.ShieldedCsv.Primitives.{Primitives}
use partymixrust.ShieldedCsv.Payment.{amounts, checked_total, coins_owned, payment_init}
use partymixrust.ShieldedCsv.Compliance.{
  coins_of, matched, issuance_matches, compliance_predicate_pay_finalize,
}

-- `a + b`
unfoldable pub add_debug : ℕ → ℕ → Outcome ℕ
add_debug a b = if ltb u64_max (a + b) then panicked else returned (a + b)

-- What comes after a call, unless it panics.
abbrev pub and_then : {A B : Type 0} → Outcome A → (A → Outcome B) → Outcome B
and_then panicked f = panicked
and_then (returned a) f = f a

-- `iter().sum::<u64>()`
unfoldable pub sum_debug : List ℕ → ℕ → Outcome ℕ
unfolding add_debug
sum_debug [] acc = returned acc
sum_debug (a ∷ as') acc = and_then (add_debug acc a) (sum_debug as')

-- `prev_state.essence.balance + prev_coins_sum`
unfoldable pub funds_debug : ℕ → List Coin → Outcome ℕ
unfolding sum_debug add_debug
funds_debug balance prev_coins = and_then (sum_debug (amounts prev_coins) 0) (add_debug balance)

module _ (x : Platform) where
  -- The sum of the new coins, less the fee.
  unfoldable pub coins_sum : PaymentInitLocalInput x.PublicKey → Option ℕ
  unfolding checked_total
  coins_sum w_loc = do total ← checked_total w_loc.new_coins 0; checked_sub total w_loc.fee

  -- The balance after the payment.
  unfoldable pub balance_after_debug :
      ℕ → List Coin → PaymentInitLocalInput x.PublicKey → Outcome (Option ℕ)
  unfolding coins_sum funds_debug
  balance_after_debug balance prev_coins w_loc = elim (coins_sum w_loc) [
    | none ↦ returned none
    | some spent ↦
        and_then (funds_debug balance prev_coins) (λ funds. returned (checked_sub funds spent))
  ]

  module _ (p : Primitives x) where
    -- Where no addition panics, the build makes no difference.
    unfoldable pub payment_init_debug :
        AcctState x.PublicKey
        → List Coin
        → PaymentInitLocalInput x.PublicKey
        → Outcome (Option (PaymentInitOutput x.PublicKey × PaymentInitOutputFee x.PublicKey))
    unfolding balance_after_debug
    payment_init_debug prev_state prev_coins w_loc =
        if coins_owned x (x.serialize prev_state.essence.id) prev_coins w_loc.acct_comm_rands
        then and_then (balance_after_debug prev_state.essence.balance prev_coins w_loc)
            (λ _. payment_init x p prev_state prev_coins w_loc)
        else returned none

    unfoldable pub payment_init_newacct_debug :
        List Coin
        → PaymentInitLocalInput x.PublicKey
        → Outcome (Option (PaymentInitOutput x.PublicKey × PaymentInitOutputFee x.PublicKey))
    payment_init_newacct_debug prev_coins w_loc =
        payment_init_debug
          (record {
            essence = record { id = w_loc.acct_id; balance = 0; nullifier_pk = w_loc.acct_id };
            spent_accum = new_acc_value;
            nullifier_accum = w_loc.nullifier_accum;
          })
          prev_coins w_loc

    unfoldable pub run_init_debug :
        Option (AcctState x.PublicKey)
        → List Coin
        → PaymentInitLocalInput x.PublicKey
        → Outcome (Option (PaymentInitOutput x.PublicKey × PaymentInitOutputFee x.PublicKey))
    run_init_debug (some st) prev_coins w_loc = payment_init_debug st prev_coins w_loc
    run_init_debug none prev_coins w_loc = payment_init_newacct_debug prev_coins w_loc

    unfoldable pub pay_init_debug :
        EdgeLabel x.PublicKey
        → LocalInput x.PublicKey
        → Option (AcctState x.PublicKey)
        → List (EdgeLabel x.PublicKey)
        → Outcome Bool
    unfolding run_init_debug
    pay_init_debug z_out (payment_init_input w_loc) acct z_in = elim (coins_of z_in) [
      | none ↦ returned false
      | some prev_coins ↦ matched x z_out (run_init_debug acct prev_coins w_loc)
    ]
    pay_init_debug z_out w_loc acct z_in = returned false

    unfoldable pub compliance_predicate_debug :
        EdgeLabel x.PublicKey → LocalInput x.PublicKey → List (EdgeLabel x.PublicKey) → Outcome Bool
    unfolding pay_init_debug
    compliance_predicate_debug z_out w_loc [] = returned (issuance_matches x p z_out w_loc)
    compliance_predicate_debug z_out w_loc (acct_state st ∷ rest) =
        pay_init_debug z_out w_loc (some st) rest
    compliance_predicate_debug z_out w_loc (coin c ∷ rest) =
        pay_init_debug z_out w_loc none (coin c ∷ rest)
    compliance_predicate_debug z_out w_loc (edge ∷ rest) =
        returned (compliance_predicate_pay_finalize x p z_out w_loc (edge ∷ rest))
