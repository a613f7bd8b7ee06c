-- ===== src/ShieldedCsv/Compliance/Soundness.antt =====
-- Every edge that the compliance predicate of protocol.rs accepts is built by a rule of `Rules`.
use partymixrust.Prelude.{
  ◌≡◌, refl, true, ◌||◌, Option, none, some, Option-cases, List, [], ◌∷◌, arith, Member, ◌⊎◌, inl,
  inr, Outcome, returned, panicked,
}
use partymixrust.ShieldedCsv.Data.{
  Coin, AcctState, PaymentInitLocalInput, PaymentInitOutput, PaymentInitOutputFee,
  PaymentFinalizeLocalInput, LocalInput, issuance_input, payment_init_input, payment_finalize_input,
  EdgeLabel, acct_state, coin, init_output, fee_output,
}
use partymixrust.ShieldedCsv.Equality.{edge_discrete}
use partymixrust.ShieldedCsv.Platform.{Platform}
use partymixrust.ShieldedCsv.Primitives.{Primitives}
use partymixrust.ShieldedCsv.Payment.{payment_init_newacct, payment_finalize, payment_finalize_fee}
use partymixrust.ShieldedCsv.Compliance.{
  coins_of, edge_eq, any_coin, output_matches, run_init, compliance_predicate_pay_init, matched,
  finalize_matches, compliance_predicate_pay_finalize, issuance_matches, compliance_predicate,
}
use partymixrust.ShieldedCsv.Compliance.Rules.{
  coin_edges, Complies, init_account, init_newacct, finalize, finalize_fee, edge_eq-true,
  any_coin-Member, coins_of-some, output_matches-inv,
}

module _ (x : Platform) (p : Primitives x) where
  -- An accepted `payment_init` edge, by the outcome of the call that it made.
  accepted_output :
      (z : EdgeLabel x.PublicKey)
      (r : Outcome (Option (PaymentInitOutput x.PublicKey × PaymentInitOutputFee x.PublicKey)))
      → matched x z r ≡ returned true
      → (o : PaymentInitOutput x.PublicKey) × (f : PaymentInitOutputFee x.PublicKey) × (r
          ≡ returned (some (o, f)))
        × ((z ≡ init_output o) ⊎ (z ≡ fee_output f))
  unfolding output_matches
  accepted_output z panicked h = cc
  accepted_output z (returned none) h = cc
  accepted_output z (returned (some (o, f))) h =
      (o, f, refl, output_matches-inv x p z o f (ground arith))

  -- An accepted `payment_init` edge was built from a call on coins alone.
  accepted_init :
      (z : EdgeLabel x.PublicKey) (l : LocalInput x.PublicKey) (a : Option (AcctState x.PublicKey))
      (es : List (EdgeLabel x.PublicKey))
      → compliance_predicate_pay_init x p z l a es ≡ returned true
      → (w : PaymentInitLocalInput x.PublicKey) × (cs : List Coin) × (o : PaymentInitOutput
          x.PublicKey)
        × (f : PaymentInitOutputFee x.PublicKey) × (l ≡ payment_init_input w)
        × (es ≡ coin_edges cs)
        × (run_init x p a cs w ≡ returned (some (o, f)))
        × ((z ≡ init_output o) ⊎ (z ≡ fee_output f))
  unfolding compliance_predicate_pay_init
  accepted_init z (payment_init_input w) a es h = elim (Option-cases (coins_of es)) [
    | inl e ↦ absurd (ground arith)
    | inr (cs, e) ↦
        let (o, f, done, zs) =
          accepted_output z (run_init x p a cs w) (rw (e, compliance_predicate_pay_init) at h) in
        (w, cs, o, f, refl, coins_of-some x p es cs e, done, zs)
  ]
  accepted_init z l a es h = cc

  sound_account :
      (z : EdgeLabel x.PublicKey) (l : LocalInput x.PublicKey) (st : AcctState x.PublicKey)
      (es : List (EdgeLabel x.PublicKey))
      → compliance_predicate_pay_init x p z l (some st) es ≡ returned true
      → Complies x p z l (acct_state st ∷ es)
  unfolding run_init
  sound_account z l st es h =
      let (w, cs, o, f, el, ees, done, zs) = accepted_init z l (some st) es h in
      rw (el, ees) (init_account st cs w o f done z zs)

  newacct_rule :
      (z : EdgeLabel x.PublicKey) (l : LocalInput x.PublicKey) (c : Coin)
      (es : List (EdgeLabel x.PublicKey)) (w : PaymentInitLocalInput x.PublicKey) (cs : List Coin)
      (o : PaymentInitOutput x.PublicKey) (f : PaymentInitOutputFee x.PublicKey)
      → l ≡ payment_init_input w
      → coin c ∷ es ≡ coin_edges cs
      → payment_init_newacct x p cs w ≡ returned (some (o, f))
      → (z ≡ init_output o) ⊎ (z ≡ fee_output f)
      → Complies x p z l (coin c ∷ es)
  newacct_rule z l c es w [] o f el ees done zs = absurd (cc)
  newacct_rule z l c es w (d ∷ ds) o f el ees done zs =
      rw (el, ees) (init_newacct d ds w o f done z zs)

  sound_newacct :
      (z : EdgeLabel x.PublicKey) (l : LocalInput x.PublicKey) (c : Coin)
      (es : List (EdgeLabel x.PublicKey))
      → compliance_predicate_pay_init x p z l none (coin c ∷ es) ≡ returned true
      → Complies x p z l (coin c ∷ es)
  unfolding run_init
  sound_newacct z l c es h =
      let (w, cs, o, f, el, ees, done, zs) = accepted_init z l none (coin c ∷ es) h in
      newacct_rule z l c es w cs o f el ees done zs

  handed_out :
      (z : EdgeLabel x.PublicKey) (st : AcctState x.PublicKey) (cs : List Coin)
      → edge_eq x z (acct_state st) || any_coin x z cs ≡ true
      → (z ≡ acct_state st) ⊎ ((c : Coin) × (z ≡ coin c) × Member c cs)
  unfolding edge_eq
  handed_out z st cs h = elim (edge_discrete x.pk_discrete z (acct_state st)) [
    | yes e ↦ inl e
    | no ne ↦ inr (any_coin-Member x p z cs (ground arith))
  ]

  sound_finalize :
      (z : EdgeLabel x.PublicKey) (w : PaymentFinalizeLocalInput) (e : EdgeLabel x.PublicKey)
      → finalize_matches x p z w e ≡ true
      → Complies x p z (payment_finalize_input w) (e ∷ [])
  unfolding finalize_matches
  sound_finalize z w (init_output o) h = elim (Option-cases (payment_finalize x p o w)) [
    | inl e ↦ absurd (ground arith)
    | inr ((st, cs), e) ↦
        finalize o w st cs e z (handed_out z st cs (rw (e, finalize_matches) at h))
  ]
  sound_finalize z w (fee_output f) h = elim (Option-cases (payment_finalize_fee x p f w)) [
    | inl e ↦ absurd (ground arith)
    | inr (c, e) ↦
        rw (← edge_eq-true x p (coin c) z (rw (e, finalize_matches) at h)) (finalize_fee f w c e)
  ]
  sound_finalize z w e h = cc

  -- Every accepted edge is built by a rule.
  pub compliance_predicate_sound :
      (z : EdgeLabel x.PublicKey) (l : LocalInput x.PublicKey) (es : List (EdgeLabel x.PublicKey))
      → compliance_predicate x p z l es ≡ returned true
      → Complies x p z l es
  unfolding compliance_predicate compliance_predicate_pay_finalize issuance_matches
  compliance_predicate_sound z issuance_input [] h = cc
  compliance_predicate_sound z l [] h = cc
  compliance_predicate_sound z l (acct_state st ∷ es) h = sound_account z l st es h
  compliance_predicate_sound z l (coin c ∷ es) h = sound_newacct z l c es h
  compliance_predicate_sound z (payment_finalize_input w) (init_output o ∷ []) h =
      sound_finalize z w (init_output o) (ground arith)
  compliance_predicate_sound z (payment_finalize_input w) (fee_output f ∷ []) h =
      sound_finalize z w (fee_output f) (ground arith)
  compliance_predicate_sound z l (e ∷ es) h = cc
