-- ===== src/ShieldedCsv/Compliance.antt =====
-- The compliance predicates of partymixrust/src/shielded_csv/protocol.rs.
pub mod Rules
pub mod Soundness
pub mod Completeness
pub mod Returns
pub mod Trees
use partymixrust.Prelude.{
  Bool, true, false, ◌||◌, Option, none, some, List, [], ◌∷◌, same, ◌>>=◌, Outcome, returned,
  panicked,
}
use partymixrust.ShieldedCsv.Data.{
  Coin, AcctState, PaymentInitLocalInput, PaymentInitOutput, PaymentInitOutputFee,
  PaymentFinalizeLocalInput, LocalInput, issuance_input, payment_init_input, payment_finalize_input,
  EdgeLabel, acct_state, coin, init_output, fee_output,
}
use partymixrust.ShieldedCsv.Equality.{edge_discrete, init_output_discrete, fee_output_discrete}
use partymixrust.ShieldedCsv.Platform.{Platform}
use partymixrust.ShieldedCsv.Primitives.{Primitives}
use partymixrust.ShieldedCsv.Payment.{
  payment_init, payment_init_newacct, payment_finalize, payment_finalize_fee,
}

-- The `try_fold` over the incoming edges: their coins, if every one is a coin.
unfoldable pub coins_of : {K : Type 0} → List (EdgeLabel K) → Option (List Coin)
coins_of [] = some []
coins_of (coin c ∷ es) = do cs ← coins_of es; some (c ∷ cs)
coins_of (e ∷ es) = none

-- `issuance` rejects every proof.
unfoldable pub issuance : Option Coin
issuance = none

module _ (x : Platform) where
  -- `z_out == e`
  unfoldable pub edge_eq : EdgeLabel x.PublicKey → EdgeLabel x.PublicKey → Bool
  edge_eq a b = same (edge_discrete x.pk_discrete a b)

  -- `coins.iter().any(|x| z_out == EdgeLabel::Coin(*x))`
  unfoldable pub any_coin : EdgeLabel x.PublicKey → List Coin → Bool
  unfolding edge_eq
  any_coin z_out [] = false
  any_coin z_out (c ∷ cs) = edge_eq z_out (coin c) || any_coin z_out cs

  -- The last `match` of `compliance_predicate_pay_init`.
  unfoldable pub output_matches :
      EdgeLabel x.PublicKey
      → Option (PaymentInitOutput x.PublicKey × PaymentInitOutputFee x.PublicKey)
      → Bool
  output_matches z_out none = false
  output_matches (init_output o) (some (out, fee)) = same (init_output_discrete x.pk_discrete out o)
  output_matches (fee_output o) (some (out, fee)) = same (fee_output_discrete x.pk_discrete fee o)
  output_matches z_out (some outputs) = false

  abbrev pub matched :
      EdgeLabel x.PublicKey
      → Outcome (Option (PaymentInitOutput x.PublicKey × PaymentInitOutputFee x.PublicKey))
      → Outcome Bool
  matched z_out panicked = panicked
  matched z_out (returned output) = returned (output_matches z_out output)

  module _ (p : Primitives x) where
    -- The call of `payment_init` for a known account, or for a new one.
    unfoldable pub run_init :
        Option (AcctState x.PublicKey)
        → List Coin
        → PaymentInitLocalInput x.PublicKey
        → Outcome (Option (PaymentInitOutput x.PublicKey × PaymentInitOutputFee x.PublicKey))
    run_init (some st) prev_coins w_loc = payment_init x p st prev_coins w_loc
    run_init none prev_coins w_loc = payment_init_newacct x p prev_coins w_loc

    unfoldable pub compliance_predicate_pay_init :
        EdgeLabel x.PublicKey
        → LocalInput x.PublicKey
        → Option (AcctState x.PublicKey)
        → List (EdgeLabel x.PublicKey)
        → Outcome Bool
    unfolding run_init output_matches coins_of
    compliance_predicate_pay_init z_out (payment_init_input w_loc) acct z_in =
        elim (coins_of z_in) [
          | none ↦ returned false
          | some prev_coins ↦ matched z_out (run_init acct prev_coins w_loc)
        ]
    compliance_predicate_pay_init z_out w_loc acct z_in = returned false

    -- The match on the one incoming edge.
    unfoldable pub finalize_matches :
        EdgeLabel x.PublicKey → PaymentFinalizeLocalInput → EdgeLabel x.PublicKey → Bool
    unfolding any_coin
    finalize_matches z_out w_loc (init_output output) = elim (payment_finalize x p output w_loc) [
      | none ↦ false
      | some (st, coins) ↦ edge_eq z_out (acct_state st) || any_coin z_out coins
    ]
    finalize_matches z_out w_loc (fee_output output) =
        elim (payment_finalize_fee x p output w_loc) [
          | none ↦ false
          | some c ↦ edge_eq (coin c) z_out
        ]
    finalize_matches z_out w_loc edge = false

    unfoldable pub compliance_predicate_pay_finalize :
        EdgeLabel x.PublicKey → LocalInput x.PublicKey → List (EdgeLabel x.PublicKey) → Bool
    unfolding finalize_matches
    compliance_predicate_pay_finalize z_out (payment_finalize_input w_loc) (edge ∷ []) =
        finalize_matches z_out w_loc edge
    compliance_predicate_pay_finalize z_out w_loc z_in = false

    -- With no incoming edge.
    unfoldable pub issuance_matches : EdgeLabel x.PublicKey → LocalInput x.PublicKey → Bool
    unfolding issuance edge_eq
    issuance_matches z_out issuance_input = elim issuance [
      | none ↦ false
      | some c ↦ edge_eq z_out (coin c)
    ]
    issuance_matches z_out w_loc = false

    unfoldable pub compliance_predicate :
        EdgeLabel x.PublicKey → LocalInput x.PublicKey → List (EdgeLabel x.PublicKey) → Outcome Bool
    unfolding compliance_predicate_pay_init compliance_predicate_pay_finalize issuance_matches
    compliance_predicate z_out w_loc [] = returned (issuance_matches z_out w_loc)
    compliance_predicate z_out w_loc (acct_state st ∷ rest) =
        compliance_predicate_pay_init z_out w_loc (some st) rest
    compliance_predicate z_out w_loc (coin c ∷ rest) =
        compliance_predicate_pay_init z_out w_loc none (coin c ∷ rest)
    compliance_predicate z_out w_loc (edge ∷ rest) =
        returned (compliance_predicate_pay_finalize z_out w_loc (edge ∷ rest))
