-- ===== src/ShieldedCsv/Compliance/Returns.antt =====
-- When the compliance predicate of protocol.rs returns, where u64 wraps around.
use partymixrust.Prelude.{
  ◌<◌, ◌≡◌, ◌≢◌, refl, ap, Bool, false, Option, none, some, Option-cases, inl, inr, List, [], ◌∷◌,
  arith, length, Outcome, returned, panicked,
}
use partymixrust.ShieldedCsv.Data.{
  Coin, AcctState, PaymentInitLocalInput, PaymentInitOutput, PaymentInitOutputFee, LocalInput,
  issuance_input, payment_init_input, payment_finalize_input, EdgeLabel, acct_state, coin,
  init_output, fee_output,
}
use partymixrust.ShieldedCsv.Platform.{Platform}
use partymixrust.ShieldedCsv.Primitives.{Primitives}
use partymixrust.ShieldedCsv.Payment.{payment_init, payment_init_newacct}
use partymixrust.ShieldedCsv.Payment.Panics.{payment_init_panics_iff}
use partymixrust.ShieldedCsv.Compliance.{
  coins_of, output_matches, matched, run_init, compliance_predicate_pay_init, compliance_predicate,
}

-- A payment in the local input has a new coin.
abbrev pub PaysSomething : {K : Type 0} → LocalInput K → Type 0
PaysSomething issuance_input = Unit
PaysSomething (payment_init_input w) = 0 < length w.new_coins
PaysSomething (payment_finalize_input w) = Unit

module _ (x : Platform) (p : Primitives x) (z : EdgeLabel x.PublicKey) where
  matched-returned :
      (r : Outcome (Option (PaymentInitOutput x.PublicKey × PaymentInitOutputFee x.PublicKey)))
      → r ≢ panicked
      → (v : Bool) × (matched x z r ≡ returned v)
  matched-returned panicked h = absurd (h refl)
  matched-returned (returned o) h = (output_matches x z o, refl)

  payment_init-survives :
      (st : AcctState x.PublicKey) (cs : List Coin) (w : PaymentInitLocalInput x.PublicKey)
      → 0 < length w.new_coins
      → payment_init x p st cs w ≢ panicked
  payment_init-survives st cs w pays h =
      omega (arith, ap length ((payment_init_panics_iff x st cs w p).0 h).none_new)

  run_init-survives :
      (a : Option (AcctState x.PublicKey)) (cs : List Coin) (w : PaymentInitLocalInput x.PublicKey)
      → 0 < length w.new_coins
      → run_init x p a cs w ≢ panicked
  unfolding run_init payment_init_newacct
  run_init-survives none cs w pays = payment_init-survives _ cs w pays
  run_init-survives (some st) cs w pays = payment_init-survives st cs w pays

  pay_init-returned :
      (w : LocalInput x.PublicKey) (a : Option (AcctState x.PublicKey))
      (es : List (EdgeLabel x.PublicKey))
      → PaysSomething w
      → (v : Bool) × (compliance_predicate_pay_init x p z w a es ≡ returned v)
  unfolding compliance_predicate_pay_init
  pay_init-returned issuance_input a es pays = (_, refl)
  pay_init-returned (payment_finalize_input w) a es pays = (_, refl)
  pay_init-returned (payment_init_input w) a es pays = elim (Option-cases (coins_of es)) [
    | inl none_in ↦ (false, rw (none_in, compliance_predicate_pay_init) refl)
    | inr (cs, all_in) ↦
        rw (all_in, compliance_predicate_pay_init)
          (matched-returned (run_init x p a cs w) (run_init-survives a cs w pays))
  ]

  -- Where u64 wraps around, the compliance predicate returns, and does not panic, on every local
  -- input except payments without a new coin.
  pub compliance_predicate_returns :
      (w : LocalInput x.PublicKey) (es : List (EdgeLabel x.PublicKey))
      → PaysSomething w
      → (v : Bool) × (compliance_predicate x p z w es ≡ returned v)
  unfolding compliance_predicate
  compliance_predicate_returns w [] pays = (_, refl)
  compliance_predicate_returns w (acct_state st ∷ es) pays = pay_init-returned w (some st) es pays
  compliance_predicate_returns w (coin c ∷ es) pays = pay_init-returned w none (coin c ∷ es) pays
  compliance_predicate_returns w (init_output o ∷ es) pays = (_, refl)
  compliance_predicate_returns w (fee_output o ∷ es) pays = (_, refl)
