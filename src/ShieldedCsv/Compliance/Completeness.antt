-- ===== src/ShieldedCsv/Compliance/Completeness.antt =====
-- Every rule of `Rules` builds an edge that the compliance predicate of protocol.rs accepts.
use partymixrust.Prelude.{
  ◌≡◌, ap, true, Option, none, some, List, ◌∷◌, arith, Member, ◌⊎◌, inl, inr, ◌↔◌, returned,
}
use partymixrust.ShieldedCsv.Data.{
  Coin, AcctState, PaymentInitLocalInput, PaymentInitOutput, PaymentInitOutputFee,
  PaymentFinalizeLocalInput, LocalInput, payment_init_input, EdgeLabel, acct_state, coin,
  init_output, fee_output,
}
use partymixrust.ShieldedCsv.Platform.{Platform}
use partymixrust.ShieldedCsv.Primitives.{Primitives}
use partymixrust.ShieldedCsv.Payment.{payment_finalize}
use partymixrust.ShieldedCsv.Compliance.{
  run_init, compliance_predicate_pay_init, finalize_matches, compliance_predicate,
}
use partymixrust.ShieldedCsv.Compliance.Rules.{
  coin_edges, Complies, init_account, init_newacct, finalize, finalize_fee, edge_eq_refl,
  Member-any_coin, coins_of-edges, output_matches-intro,
}
use partymixrust.ShieldedCsv.Compliance.Soundness.{compliance_predicate_sound}

module _ (x : Platform) (p : Primitives x) where
  accept_init :
      (z : EdgeLabel x.PublicKey) (a : Option (AcctState x.PublicKey)) (cs : List Coin)
      (w : PaymentInitLocalInput x.PublicKey) (o : PaymentInitOutput x.PublicKey)
      (f : PaymentInitOutputFee x.PublicKey)
      → run_init x p a cs w ≡ returned (some (o, f))
      → (z ≡ init_output o) ⊎ (z ≡ fee_output f)
      → compliance_predicate_pay_init x p z (payment_init_input w) a (coin_edges cs) ≡ returned true
  unfolding compliance_predicate_pay_init
  accept_init z a cs w o f done zs =
      ground (arith, coins_of-edges x p cs, done, output_matches-intro x p z o f zs)

  accept_finalize :
      (z : EdgeLabel x.PublicKey) (w : PaymentFinalizeLocalInput)
      (o : PaymentInitOutput x.PublicKey) (st : AcctState x.PublicKey) (cs : List Coin)
      → payment_finalize x p o w ≡ some (st, cs)
      → (z ≡ acct_state st) ⊎ ((c : Coin) × (z ≡ coin c) × Member c cs)
      → finalize_matches x p z w (init_output o) ≡ true
  unfolding finalize_matches
  accept_finalize z w o st cs done (inl e) = rw e (ground (arith, edge_eq_refl x p (acct_state st)))
  accept_finalize z w o st cs done (inr (c, e, m)) =
      rw e (ground (arith, Member-any_coin x p c cs m))

  -- Every rule builds an accepted edge.
  compliance_predicate_complete :
      {z : EdgeLabel x.PublicKey} {l : LocalInput x.PublicKey} {es : List (EdgeLabel x.PublicKey)}
      → Complies x p z l es
      → compliance_predicate x p z l es ≡ returned true
  unfolding compliance_predicate run_init finalize_matches
  compliance_predicate_complete (init_account st coins w o f done z zs) =
      accept_init z (some st) coins w o f done zs
  compliance_predicate_complete (init_newacct c coins w o f done z zs) =
      accept_init z none (c ∷ coins) w o f done zs
  compliance_predicate_complete (finalize o w st coins done z zs) =
      ap returned (accept_finalize z w o st coins done zs)
  compliance_predicate_complete (finalize_fee f w c done) =
      ground (arith, edge_eq_refl x p (coin c))

  -- The compliance predicate returns true exactly for the edges that one of the four rules of
  -- Complies builds: an account or a new account that spends coins with payment_init, its owner's
  -- finalization, or the publisher's.
  pub compliance_predicate_iff :
      (z : EdgeLabel x.PublicKey) (l : LocalInput x.PublicKey) (es : List (EdgeLabel x.PublicKey))
      → (compliance_predicate x p z l es ≡ returned true) ↔ Complies x p z l es
  compliance_predicate_iff z l es =
      (compliance_predicate_sound x p z l es, compliance_predicate_complete)
