-- ===== src/Withdrawal/Compliance.antt =====
-- The statement that `process_single_withdrawal` of withdrawal_handler.rs has proved, against the
-- compliance predicate of protocol.rs.
use partymixrust.Prelude.{
  ◌≡◌, ◌≢◌, true, Option, none, some, Option-cases, inl, inr, List, [], ◌∷◌, arith, Bytes, Result,
  ok, err, Result-cases, Outcome, returned, panicked,
}
use partymixrust.ShieldedCsv.Data.{
  Coin, AcctState, PaymentInitLocalInput, PaymentInitOutput, PaymentInitOutputFee, LocalInput,
  payment_init_input, EdgeLabel, acct_state, coin,
}
use partymixrust.ShieldedCsv.Platform.{Platform}
use partymixrust.ShieldedCsv.Primitives.{Primitives}
use partymixrust.ShieldedCsv.Compliance.{
  coins_of, output_matches, matched, run_init, compliance_predicate_pay_init, compliance_predicate,
}
use partymixrust.Types.{MixerWithdrawalRequest, WithdrawalDelivery, PoolAccount}
use partymixrust.Wallet.{WalletState}
use partymixrust.Crypto.Pcd.{PcdBackend}
use partymixrust.Node.{MixerNode}
use partymixrust.Pool.{PoolError, primary_account}
use partymixrust.Withdrawal.{
  WithdrawalHandler, WithdrawalError, withdrawal_input, mock_coin, prove_withdrawal,
  process_single_withdrawal,
}

module _ (x : Platform) (p : Primitives x) where
  -- A coin is no output of `payment_init`.
  coin-unmatched :
      (c : Coin)
      (r : Outcome (Option (PaymentInitOutput x.PublicKey × PaymentInitOutputFee x.PublicKey)))
      → matched x (coin c) r ≢ returned true
  unfolding output_matches
  coin-unmatched c panicked h = cc
  coin-unmatched c (returned none) h = cc
  coin-unmatched c (returned (some o)) h = cc

  pub coin-noncompliant :
      (c : Coin) (w : PaymentInitLocalInput x.PublicKey) (st : AcctState x.PublicKey)
      (es : List (EdgeLabel x.PublicKey))
      → compliance_predicate x p (coin c) (payment_init_input w) (acct_state st ∷ es)
        ≢ returned true
  unfolding compliance_predicate compliance_predicate_pay_init
  coin-noncompliant c w st es h = elim (Option-cases (coins_of es)) [
    | inl e ↦ absurd (ground arith)
    | inr (cs, e) ↦
        coin-unmatched c (run_init x p (some st) cs w) (rw (e, compliance_predicate_pay_init) at h)
  ]

  -- A backend that proves compliant edges only.
  abbrev pub ProvesCompliant : PcdBackend x → Type 0
  ProvesCompliant b =
      (k : b.ProvKey) (z : EdgeLabel x.PublicKey) (w : LocalInput x.PublicKey)
      (es : List (EdgeLabel x.PublicKey)) (ps : List Bytes) (proof : Bytes)
      → b.prove k z w es ps ≡ ok proof
      → compliance_predicate x p z w es ≡ returned true

  module _ (b : PcdBackend x) (honest : ProvesCompliant b) (self : WithdrawalHandler)
      (node : MixerNode x b) (r : MixerWithdrawalRequest x) (draw : Bytes) where
    prove_withdrawal-fails :
        (a : Result PoolError (PoolAccount x)) (d : WithdrawalDelivery x)
        → prove_withdrawal x b self node r draw a ≢ ok d
    prove_withdrawal-fails (err e) d h = cc
    prove_withdrawal-fails (ok a) d h =
        let c = mock_coin x b node r a draw in
        let w = withdrawal_input x b self node r a draw in
        elim (Result-cases (
          b.prove b.keygen.0 (coin c) (payment_init_input w) (acct_state a.state ∷ [])
            (a.state_proof ∷ []))) [
              | inl (e, failed) ↦ absurd (ground arith)
              | inr (proof, proved) ↦
                  coin-noncompliant c w a.state [] (honest _ _ _ _ _ proof proved)
            ]

    -- With a backend that proves only what the compliance predicate accepts, every withdrawal
    -- ends in an error.
    pub process_single_withdrawal-fails :
        (wallet : WalletState x)
        → (e : WithdrawalError) × (process_single_withdrawal x b self node wallet r draw ≡ err e)
    unfolding process_single_withdrawal
    process_single_withdrawal-fails wallet =
        elim (Result-cases (process_single_withdrawal x b self node wallet r draw)) [
          | inl failed ↦ failed
          | inr (d, h) ↦ absurd (prove_withdrawal-fails (primary_account x wallet) d h)
        ]
