-- ===== src/ShieldedCsv/Payment/Panics.antt =====
-- When `payment_init` panics, where the additions of u64 wrap around.
use partymixrust.Prelude.{
  ◌≡◌, ◌↔◌, refl, true, false, some, Option-cases, List, [], ◌∷◌, ◌++◌, map, arith, inl, inr,
  panicked,
}
use partymixrust.ShieldedCsv.Data.{
  CoinEssence, Coin, AcctState, AcctStateEssence, Transaction, PaymentInitLocalInput,
}
use partymixrust.ShieldedCsv.Platform.{Platform}
use partymixrust.ShieldedCsv.Primitives.{Primitives}
use partymixrust.ShieldedCsv.Payment.{
  checked_total, balance_after, payment_checks, settle, payment_init,
}
use partymixrust.ShieldedCsv.Payment.Inversion.{payment_checks-Checked}

module _ (x : Platform) (st : AcctState x.PublicKey) (coins : List Coin)
    (w : PaymentInitLocalInput x.PublicKey) where
  module _ (p : Primitives x) where
    settle-panicked :
        (e : AcctStateEssence x.PublicKey) (tx : Transaction x.PublicKey) (cs : List CoinEssence)
        → w.new_coins ≡ cs
        → tx.conditional_nav ≡ w.conditional_nav
        → settle x p st coins w (e, tx) ≡ panicked
        → (cs ≡ [])
          × (p.verify_distinct_element w.conditional_nav w.nullifier_accum w.nap_proof ≡ false)
    unfolding settle
    settle-panicked e tx [] c n h = (refl, ground arith)
    settle-panicked e tx (first ∷ rest) c n h = absurd (ground arith)

    -- The fee exceeds the sum of no coins, unless it is zero.
    balance_after-nil :
        (b : _) (n : _) → w.new_coins ≡ [] → balance_after x b coins w ≡ some n → w.fee ≡ 0
    unfolding balance_after checked_total
    balance_after-nil b n c h = ground arith

    -- Where u64 wraps around, when payment_init panics, there are no new coins, the fee is zero
    -- and the accumulator values are not distinct.
    pub payment_init-panicked :
        payment_init x p st coins w ≡ panicked
        → (w.new_coins ≡ [])
          × (w.fee ≡ 0)
          × (p.verify_distinct_element w.conditional_nav w.nullifier_accum w.nap_proof ≡ false)
    unfolding payment_init
    payment_init-panicked h = elim (Option-cases (payment_checks x p st coins w)) [
      | inl rejected ↦ absurd (ground arith)
      | inr (c, passed) ↦
          let checked = payment_checks-Checked x p st coins w c.0 c.1 passed in
          let (none_new, stale) =
            settle-panicked c.0 c.1 w.new_coins refl checked.nav (ground arith) in
          (
            none_new,
            balance_after-nil st.essence.balance c.0.balance none_new checked.balance,
            stale,
          )
    ]

    -- The calls that reach the slice with no new coin.
    pub record Exposed : Type 0 where
      pub none_new : w.new_coins ≡ []
      pub made : AcctStateEssence x.PublicKey × Transaction x.PublicKey
      pub passed : payment_checks x p st coins w ≡ some made
      pub stale : p.verify_distinct_element w.conditional_nav w.nullifier_accum w.nap_proof ≡ false
      pub prefixed :
          p.verify_is_prefix
            (map (λ (c : Coin). c.nullifier_accum) coins
              ++ st.nullifier_accum ∷ w.conditional_nav ∷ [])
            w.nullifier_accum
            w.nap_proof
          ≡ true

    settle-Exposed :
        (e : AcctStateEssence x.PublicKey) (tx : Transaction x.PublicKey)
        → tx.conditional_nav ≡ w.conditional_nav
        → payment_checks x p st coins w ≡ some (e, tx)
        → settle x p st coins w (e, tx) ≡ panicked
        → Exposed
    unfolding settle
    settle-Exposed e tx n passed h =
        let (none_new, stale) = settle-panicked e tx w.new_coins refl n h in
        record {
          none_new = none_new;
          made = (e, tx);
          passed = passed;
          stale = stale;
          prefixed = ground arith;
        }

    -- Where u64 wraps around, a call of payment_init panics exactly when it has no new coin, passes the checks before the
    -- conditional accumulator value, and the accumulator values are not distinct but a prefix.
    pub payment_init_panics_iff : (payment_init x p st coins w ≡ panicked) ↔ Exposed
    unfolding payment_init settle
    payment_init_panics_iff = (
      λ h. elim (Option-cases (payment_checks x p st coins w)) [
        | inl rejected ↦ absurd (ground arith)
        | inr (c, passed) ↦
            let checked = payment_checks-Checked x p st coins w c.0 c.1 passed in
            settle-Exposed c.0 c.1 checked.nav passed (ground arith)
      ],
      λ e.
          let checked = payment_checks-Checked x p st coins w e.made.0 e.made.1 e.passed in
          rw (e.passed, payment_init) (rw (checked.nav, e.stale, e.prefixed, e.none_new) refl),
    )
