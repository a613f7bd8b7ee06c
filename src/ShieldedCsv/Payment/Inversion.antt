-- ===== src/ShieldedCsv/Payment/Inversion.antt =====
-- What a call of `payment_init` has gone through when it returns, panics or rejects.
use partymixrust.Prelude.{
  ◌≡◌, refl, true, false, some, List, [], ◌∷◌, map, Option-cases, Bool-cases, ◌⊎◌, inl, inr, arith,
  returned,
}
use partymixrust.ShieldedCsv.Data.{
  CoinEssence, Coin, AcctStateEssence, AcctState, Transaction, PaymentInitLocalInput,
  PaymentInitOutput, PaymentInitOutputFee,
}
use partymixrust.ShieldedCsv.Platform.{Platform}
use partymixrust.ShieldedCsv.Primitives.{Primitives}
use partymixrust.ShieldedCsv.Payment.{
  coins_owned, balance_after, indices_ok, payment_checks, settle, payment_init, on_chain_id,
}

module _ (x : Platform) (p : Primitives x) (st : AcctState x.PublicKey) (coins : List Coin)
    (w : PaymentInitLocalInput x.PublicKey) where
  -- The checks that `payment_init` makes before it looks at the conditional NAV.
  pub record Checked (e : AcctStateEssence x.PublicKey) (tx : Transaction x.PublicKey)
      : Type 0 where
    pub owned : coins_owned x (x.serialize st.essence.id) coins w.acct_comm_rands ≡ true
    pub balance : balance_after x st.essence.balance coins w ≡ some e.balance
    pub unspent :
        p.verify_non_membership_and_insert st.spent_accum w.new_spent_accum
          (map on_chain_id coins)
          w.snmi_proof
        ≡ true
    pub indices : indices_ok w.new_coins ≡ true
    pub nav : tx.conditional_nav ≡ w.conditional_nav
    pub account : e.id ≡ st.essence.id

  pub payment_checks-Checked :
      (e : AcctStateEssence x.PublicKey) (tx : Transaction x.PublicKey)
      → payment_checks x p st coins w ≡ some (e, tx)
      → Checked e tx
  unfolding payment_checks
  payment_checks-Checked e tx h = ground arith

  -- The transaction is skipped: its conditional NAV is not in the accumulator.
  pub record Noop (e : AcctStateEssence x.PublicKey) (o : PaymentInitOutput x.PublicKey)
      (f : PaymentInitOutputFee x.PublicKey) : Type 0 where
    pub distinct : p.verify_distinct_element w.conditional_nav w.nullifier_accum w.nap_proof ≡ true
    pub essence : o.acct_state_essence ≡ record e { balance = st.essence.balance }
    pub spent : o.spent_accum ≡ st.spent_accum
    pub coins_out : o.coin_essences ≡ []
    pub fee_out : f.fee ≡ 0
    pub partials : f.partial_output ≡ o.partial_output

  -- The transaction takes effect: all new coins but the first are handed out.
  pub record Effective (e : AcctStateEssence x.PublicKey) (o : PaymentInitOutput x.PublicKey)
      (f : PaymentInitOutputFee x.PublicKey) : Type 0 where
    pub distinct : p.verify_distinct_element w.conditional_nav w.nullifier_accum w.nap_proof ≡ false
    pub essence : o.acct_state_essence ≡ e
    pub spent : o.spent_accum ≡ w.new_spent_accum
    pub first : CoinEssence
    pub coins_out : w.new_coins ≡ first ∷ o.coin_essences
    pub fee_out : f.fee ≡ w.fee
    pub partials : f.partial_output ≡ o.partial_output

  module _ (e : AcctStateEssence x.PublicKey) (tx : Transaction x.PublicKey)
      (o : PaymentInitOutput x.PublicKey) (f : PaymentInitOutputFee x.PublicKey)
      (nav : tx.conditional_nav ≡ w.conditional_nav)
      (done : settle x p st coins w (e, tx) ≡ returned (some (o, f))) where
    settle-Noop :
        p.verify_distinct_element tx.conditional_nav w.nullifier_accum w.nap_proof ≡ true
        → Noop e o f
    unfolding settle
    settle-Noop h = ground arith

    settle-Effective :
        (cs : List CoinEssence)
        → w.new_coins ≡ cs
        → p.verify_distinct_element tx.conditional_nav w.nullifier_accum w.nap_proof ≡ false
        → Effective e o f
    unfolding settle
    settle-Effective [] c h = absurd (ground arith)
    settle-Effective (first ∷ rest) c h = record {
      distinct = ground arith;
      essence = ground arith;
      spent = ground arith;
      first = first;
      coins_out = ground arith;
      fee_out = ground arith;
      partials = ground arith;
    }

    settle-cases : Noop e o f ⊎ Effective e o f
    settle-cases =
        elim (Bool-cases
          (p.verify_distinct_element tx.conditional_nav w.nullifier_accum w.nap_proof)) [
            | inl h ↦ inl (settle-Noop h)
            | inr h ↦ inr (settle-Effective w.new_coins refl h)
          ]

  -- Every result that `payment_init` hands out passed the checks, and is a no-op or takes effect.
  pub payment_init-returned :
      (o : PaymentInitOutput x.PublicKey) (f : PaymentInitOutputFee x.PublicKey)
      → payment_init x p st coins w ≡ returned (some (o, f))
      → (e : AcctStateEssence x.PublicKey) × (tx : Transaction x.PublicKey) × Checked e tx
        × (Noop e o f ⊎ Effective e o f)
  unfolding payment_init
  payment_init-returned o f h = elim (Option-cases (payment_checks x p st coins w)) [
    | inl rejected ↦ absurd (ground arith)
    | inr (c, passed) ↦
        let checked = payment_checks-Checked c.0 c.1 passed in
        (c.0, c.1, checked, settle-cases c.0 c.1 o f checked.nav (ground arith))
  ]
