-- ===== src/ShieldedCsv/Debug/Panics.antt =====
-- When `payment_init` panics, in a debug build and in one where u64 wraps around.
use partymixrust.Prelude.{
  ℕ, ◌+◌, ◌≤◌, ◌<◌, ◌≡◌, ◌≢◌, ◌↔◌, refl, sym, ◌∙◌, true, false, Bool-cases, Option-cases, ◌⊎◌, inl,
  inr, List, arith, returned, panicked, Outcome, ltb, Option, none,
}
use partymixrust.Prelude.Words.{u64_max, total}
use partymixrust.ShieldedCsv.Data.{Coin, AcctState, PaymentInitLocalInput}
use partymixrust.ShieldedCsv.Platform.{Platform}
use partymixrust.ShieldedCsv.Primitives.{Primitives}
use partymixrust.ShieldedCsv.Payment.{amounts, coins_owned, payment_init, payment_checks}
use partymixrust.ShieldedCsv.Payment.Inversion.{payment_checks-Checked}
use partymixrust.ShieldedCsv.Payment.Ownership.{Opened, coins_owned-Opened, Opened-coins_owned}
use partymixrust.ShieldedCsv.Payment.Panics.{Exposed, payment_init_panics_iff}
use partymixrust.ShieldedCsv.Debug.{and_then, coins_sum, balance_after_debug, payment_init_debug}
use partymixrust.ShieldedCsv.Debug.Additions.{
  Spends, coins_sum-Spends, Spends-coins_sum, balance_after-same, balance_after_panics,
  balance_after_rejected,
}

always_panics : {A B : Type 0} (o : Outcome A) → and_then {B = B} o (λ _. panicked) ≡ panicked
always_panics panicked = refl
always_panics (returned a) = refl

returned_none : {A : Type 0} (o : Outcome (Option A)) → o ≡ returned none → o ≢ panicked
returned_none o e h = cc

module _ (x : Platform) (st : AcctState x.PublicKey) (coins : List Coin)
    (w : PaymentInitLocalInput x.PublicKey) where
  -- The calls that reach the additions with more than fits in u64.
  pub record Overflows : Type 0 where
    pub opened : Opened x (x.serialize st.essence.id) coins w.acct_comm_rands
    pub spent : ℕ
    pub spends : Spends x w spent
    pub over : u64_max < st.essence.balance + total (amounts coins)

  module _ (p : Primitives x) where
    debug_owned :
        coins_owned x (x.serialize st.essence.id) coins w.acct_comm_rands ≡ true
        → payment_init_debug x p st coins w
          ≡ and_then
              (balance_after_debug x st.essence.balance coins w)
              (λ _. payment_init x p st coins w)
    unfolding payment_init_debug
    debug_owned h = rw h refl

    debug_unowned :
        coins_owned x (x.serialize st.essence.id) coins w.acct_comm_rands ≡ false
        → payment_init_debug x p st coins w ≡ returned none
    unfolding payment_init_debug
    debug_unowned h = rw h refl

    unowned :
        coins_owned x (x.serialize st.essence.id) coins w.acct_comm_rands ≡ false
        → payment_init x p st coins w ≡ returned none
    unfolding payment_init payment_checks
    unowned h = rw h refl

    -- Where nothing overflows, both builds have the same outcome.
    pub payment_init-same :
        st.essence.balance + total (amounts coins) ≤ u64_max
        → payment_init_debug x p st coins w ≡ payment_init x p st coins w
    payment_init-same fits =
        elim (Bool-cases (coins_owned x (x.serialize st.essence.id) coins w.acct_comm_rands)) [
          | inl owned ↦
              rw (debug_owned owned, balance_after-same x w st.essence.balance coins fits) refl
          | inr other ↦ rw (debug_unowned other, unowned other) refl
        ]

    Overflows-panicked : Overflows → payment_init_debug x p st coins w ≡ panicked
    Overflows-panicked h =
        rw
          (
            debug_owned (Opened-coins_owned x _ coins w.acct_comm_rands h.opened),
            balance_after_panics x w st.essence.balance coins h.spent h.over
                (Spends-coins_sum x w h.spent h.spends),
          )
          refl

    Exposed-panicked : Exposed x st coins w p → payment_init_debug x p st coins w ≡ panicked
    Exposed-panicked h =
        let checked = payment_checks-Checked x p st coins w h.made.0 h.made.1 h.passed in
        let stops = (payment_init_panics_iff x st coins w p).1 h in
        rw (debug_owned checked.owned, stops)
          (always_panics (balance_after_debug x st.essence.balance coins w))

    exposed : payment_init x p st coins w ≡ panicked → Overflows ⊎ Exposed x st coins w p
    exposed h = inr ((payment_init_panics_iff x st coins w p).0 h)

    panicked_owned :
        coins_owned x (x.serialize st.essence.id) coins w.acct_comm_rands ≡ true
        → payment_init_debug x p st coins w ≡ panicked
        → Overflows ⊎ Exposed x st coins w p
    panicked_owned owned h =
        let funds = st.essence.balance + total (amounts coins) in
        elim (Bool-cases (ltb u64_max funds)) [
          | inr fits ↦ exposed (sym (payment_init-same (ground arith)) ∙ h)
          | inl over ↦ elim (Option-cases (coins_sum x w)) [
            | inl rejected ↦
                exposed (rw (debug_owned owned, balance_after_rejected x w _ coins rejected) at h)
            | inr (spent, e) ↦ inl (record {
              opened = coins_owned-Opened x _ coins w.acct_comm_rands owned;
              spent = spent;
              spends = coins_sum-Spends x w spent e;
              over = ground arith;
            })
          ]
        ]

    panicked-cases :
        payment_init_debug x p st coins w ≡ panicked → Overflows ⊎ Exposed x st coins w p
    panicked-cases h =
        elim (Bool-cases (coins_owned x (x.serialize st.essence.id) coins w.acct_comm_rands)) [
          | inl owned ↦ panicked_owned owned h
          | inr other ↦ absurd (returned_none _ (debug_unowned other) h)
        ]

    -- In a debug build a call of payment_init panics exactly when every coin that has an opening
    -- is addressed to the account under it, the sum of the new coins fits in u64 and covers the
    -- fee, and the balance and the spent coins are together worth more than the greatest u64; or
    -- when it has no new coin, passes the checks before the conditional accumulator value, and
    -- the accumulator values are not distinct but a prefix. In a build where u64 wraps around it
    -- panics exactly in the second case.
    pub payment_init_debug_panics_iff :
        ((payment_init_debug x p st coins w ≡ panicked) ↔ (Overflows ⊎ Exposed x st coins w p))
        × ((payment_init x p st coins w ≡ panicked) ↔ Exposed x st coins w p)
    payment_init_debug_panics_iff = (
      (
        panicked-cases,
        λ c. elim c [ inl over ↦ Overflows-panicked over | inr bare ↦ Exposed-panicked bare ],
      ),
      payment_init_panics_iff x st coins w p,
    )
