-- ===== src/ShieldedCsv/Equality.antt =====
-- The derived `PartialEq` of the protocol types that the code compares.
use partymixrust.Prelude.{ℕ_discrete, List-discrete}
use partymixrust.ShieldedCsv.Data.{PaymentInitOutput, PaymentInitOutputFee, EdgeLabel}

module _ {K : Type 0} (dec : Discrete K) where
  pub edge_discrete : Discrete (EdgeLabel K)
  edge_discrete = hlevel (dec, ℕ_discrete, List-discrete)

  pub init_output_discrete : Discrete (PaymentInitOutput K)
  init_output_discrete = hlevel (dec, ℕ_discrete, List-discrete)

  pub fee_output_discrete : Discrete (PaymentInitOutputFee K)
  fee_output_discrete = hlevel (dec, ℕ_discrete, List-discrete)
