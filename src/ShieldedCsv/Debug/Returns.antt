-- ===== src/ShieldedCsv/Debug/Returns.antt =====
-- When the compliance predicate of protocol.rs returns, in a debug build too.
use partymixrust.Prelude.{
  ℕ, ◌+◌, ◌≤◌, ◌≡◌, refl, ap, ◌∙◌, Bool, Option, none, some, Option-cases, inl, inr, List, [], ◌∷◌,
  map, arith, returned,
}
use partymixrust.Prelude.Words.{u64_max, total}
use partymixrust.ShieldedCsv.Data.{
  Coin, AcctState, PaymentInitLocalInput, LocalInput, issuance_input, payment_init_input,
  payment_finalize_input, EdgeLabel, acct_state, coin, init_output, fee_output,
}
use partymixrust.ShieldedCsv.Platform.{Platform}
use partymixrust.ShieldedCsv.Primitives.{Primitives}
use partymixrust.ShieldedCsv.Payment.{amounts, payment_init_newacct}
use partymixrust.ShieldedCsv.Compliance.{
  coins_of, matched, run_init, compliance_predicate_pay_init, compliance_predicate,
}
use partymixrust.ShieldedCsv.Compliance.Returns.{PaysSomething, compliance_predicate_returns}
use partymixrust.ShieldedCsv.Debug.{
  payment_init_newacct_debug, run_init_debug, pay_init_debug, compliance_predicate_debug,
}
use partymixrust.ShieldedCsv.Debug.Panics.{payment_init-same}

-- What an incoming edge is worth to a payment.
abbrev pub edge_worth : {K : Type 0} → EdgeLabel K → ℕ
edge_worth (acct_state st) = st.essence.balance
edge_worth (coin c) = c.essence.amount
edge_worth (init_output o) = 0
edge_worth (fee_output o) = 0

coins_of-worth :
    {K : Type 0} (es : List (EdgeLabel K)) (cs : List Coin)
    → coins_of es ≡ some cs
    → total (amounts cs) ≡ total (map edge_worth es)
unfolding coins_of total
coins_of-worth [] cs h = ground arith
coins_of-worth (coin c ∷ es) cs h = elim (Option-cases (coins_of es)) [
  | inl none_in ↦ absurd (ground arith)
  | inr (ds, all_in) ↦ ground (arith, coins_of-worth es ds all_in)
]
coins_of-worth (acct_state st ∷ es) cs h = absurd (ground arith)
coins_of-worth (init_output o ∷ es) cs h = absurd (ground arith)
coins_of-worth (fee_output o ∷ es) cs h = absurd (ground arith)

abbrev balance_of : {K : Type 0} → Option (AcctState K) → ℕ
balance_of none = 0
balance_of (some st) = st.essence.balance

module _ (x : Platform) (p : Primitives x) (z : EdgeLabel x.PublicKey) where
  run_init-same :
      (a : Option (AcctState x.PublicKey)) (cs : List Coin) (w : PaymentInitLocalInput x.PublicKey)
      → balance_of a + total (amounts cs) ≤ u64_max
      → run_init_debug x p a cs w ≡ run_init x p a cs w
  unfolding run_init_debug run_init payment_init_newacct_debug payment_init_newacct
  run_init-same none cs w fits = payment_init-same x _ cs w p fits
  run_init-same (some st) cs w fits = payment_init-same x st cs w p fits

  pay_init-same :
      (w : LocalInput x.PublicKey) (a : Option (AcctState x.PublicKey))
      (es : List (EdgeLabel x.PublicKey))
      → balance_of a + total (map edge_worth es) ≤ u64_max
      → pay_init_debug x p z w a es ≡ compliance_predicate_pay_init x p z w a es
  unfolding pay_init_debug compliance_predicate_pay_init
  pay_init-same issuance_input a es fits = refl
  pay_init-same (payment_finalize_input w) a es fits = refl
  pay_init-same (payment_init_input w) a es fits = elim (Option-cases (coins_of es)) [
    | inl none_in ↦ rw (none_in, pay_init_debug, compliance_predicate_pay_init) refl
    | inr (cs, all_in) ↦
        rw (all_in, pay_init_debug, compliance_predicate_pay_init)
          (ap (matched x z) (run_init-same a cs w (omega (arith, coins_of-worth es cs all_in))))
  ]

  compliance_predicate-same :
      (w : LocalInput x.PublicKey) (es : List (EdgeLabel x.PublicKey))
      → total (map edge_worth es) ≤ u64_max
      → compliance_predicate_debug x p z w es ≡ compliance_predicate x p z w es
  unfolding compliance_predicate_debug compliance_predicate total
  compliance_predicate-same w [] fits = refl
  compliance_predicate-same w (acct_state st ∷ es) fits = pay_init-same w (some st) es fits
  compliance_predicate-same w (coin c ∷ es) fits = pay_init-same w none (coin c ∷ es) (omega arith)
  compliance_predicate-same w (init_output o ∷ es) fits = refl
  compliance_predicate-same w (fee_output o ∷ es) fits = refl

  -- On a local input that is no payment without a new coin, with incoming accounts and coins that
  -- are together worth at most the greatest u64, the compliance predicate returns, and gives the
  -- same verdict, both in a debug build, where an addition that overflows panics, and in a build
  -- where u64 wraps around.
  pub compliance_predicate_debug_returns :
      (w : LocalInput x.PublicKey) (es : List (EdgeLabel x.PublicKey))
      → PaysSomething w
      → total (map edge_worth es) ≤ u64_max
      → (v : Bool) × (compliance_predicate_debug x p z w es ≡ returned v)
        × (compliance_predicate x p z w es ≡ returned v)
  compliance_predicate_debug_returns w es pays fits =
      let (v, done) = compliance_predicate_returns x p z w es pays in
      (v, compliance_predicate-same w es fits ∙ done, done)
