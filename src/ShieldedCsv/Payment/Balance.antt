-- ===== src/ShieldedCsv/Payment/Balance.antt =====
-- The value that goes into and comes out of `payment_init`.
use partymixrust.Prelude.{
  ℕ, ◌+◌, ◌*◌, ◌<◌, ◌≡◌, true, false, some, List, [], ◌∷◌, map, arith, ap, Option-cases, inl, inr,
  returned, refl, sym, ◌∙◌,
}
use partymixrust.Prelude.Words.{u64_mod, total, wrapping_sum-eq-total}
use partymixrust.ShieldedCsv.Data.{
  CoinEssence, Coin, AcctState, PaymentInitLocalInput, PaymentInitOutput, PaymentInitOutputFee,
  PaymentInitOutputPartial, PaymentFinalizeLocalInput,
}
use partymixrust.ShieldedCsv.Platform.{Platform}
use partymixrust.ShieldedCsv.Primitives.{Primitives}
use partymixrust.ShieldedCsv.Payment.{
  checked_total, balance_after, amounts, payment_init, located, payment_finalize,
  payment_finalize_fee,
}
use partymixrust.ShieldedCsv.Payment.Inversion.{payment_init-returned}

abbrev pub essence_amounts : List CoinEssence → List ℕ
essence_amounts = map (λ c. c.amount)

pub checked_total-eq-total :
    (cs : List CoinEssence) (acc t : ℕ)
    → checked_total cs acc ≡ some t
    → t ≡ acc + total (essence_amounts cs)
unfolding checked_total total
checked_total-eq-total [] acc t h = ground arith
checked_total-eq-total (c ∷ cs) acc t h =
    ground (arith, checked_total-eq-total cs (acc + c.amount) t)

-- The equation that the balance check establishes.
balance_after-eq :
    (x : Platform) (b : ℕ) (coins : List Coin) (w : PaymentInitLocalInput x.PublicKey) (n : ℕ)
    → b + total (amounts coins) < u64_mod
    → balance_after x b coins w ≡ some n
    → n + total (essence_amounts w.new_coins) ≡ b + total (amounts coins) + w.fee
unfolding balance_after
balance_after-eq x b coins w n fits h = elim (Option-cases (checked_total w.new_coins 0)) [
  | inl overflow ↦ absurd (ground arith)
  | inr (t, e) ↦
      ground
        (arith, checked_total-eq-total w.new_coins 0 t e, wrapping_sum-eq-total (amounts coins))
]

module _ (x : Platform) (p : Primitives x) (st : AcctState x.PublicKey) (coins : List Coin)
    (w : PaymentInitLocalInput x.PublicKey) (o : PaymentInitOutput x.PublicKey)
    (f : PaymentInitOutputFee x.PublicKey)
    (done : payment_init x p st coins w ≡ returned (some (o, f))) where
  -- What the account and its coins are worth before the payment.
  abbrev value_in : ℕ
  value_in = st.essence.balance + total (amounts coins)

  -- What the account, the new coins and the publisher's fee coin are worth after it.
  abbrev value_out : ℕ
  value_out = o.acct_state_essence.balance + total (essence_amounts o.coin_essences) + f.fee

  -- When payment_init accepts and the accumulator values are distinct, the output has the
  -- account's balance, identity and spent coins, no coin and no fee.
  pub payment_init-noop :
      p.verify_distinct_element w.conditional_nav w.nullifier_accum w.nap_proof ≡ true
      → (o.acct_state_essence.balance ≡ st.essence.balance)
        × (o.acct_state_essence.id ≡ st.essence.id)
        × (o.spent_accum ≡ st.spent_accum)
        × (o.coin_essences ≡ [])
        × (f.fee ≡ 0)
  payment_init-noop h =
      let (e, tx, checked, verdict) = payment_init-returned x p st coins w o f done in ground arith

  -- When payment_init accepts, the sum of what comes in does not overflow, and the accumulator
  -- values are not distinct, there is a first new coin that is missing from the output, and the
  -- balance, the coins and the fee that come out are worth, with that first coin, what came in
  -- and twice the fee.
  pub payment_init_value :
      value_in < u64_mod
      → p.verify_distinct_element w.conditional_nav w.nullifier_accum w.nap_proof ≡ false
      → (first : CoinEssence) × (w.new_coins ≡ first ∷ o.coin_essences)
        × (value_out + first.amount ≡ value_in + 2 * w.fee)
  unfolding total
  payment_init_value fits h =
      let (e, tx, checked, verdict) = payment_init-returned x p st coins w o f done in
      elim verdict [
        | inl skipped ↦ absurd (ground (arith, skipped.distinct))
        | inr made ↦ (
          made.first,
          made.coins_out,
          ground (
            arith,
            balance_after-eq x st.essence.balance coins w e.balance fits checked.balance,
            made.coins_out,
            ap (λ cs. total (essence_amounts cs)) made.coins_out,
          ),
        )
      ]

  abbrev essences : List Coin → List CoinEssence
  essences = map (λ c. c.essence)

  essences-located :
      (partial : PaymentInitOutputPartial x.PublicKey) (w' : PaymentFinalizeLocalInput)
      (cs : List CoinEssence)
      → essences (map (located x partial w') cs) ≡ cs
  essences-located partial w' [] = refl
  essences-located partial w' (c ∷ cs) = ap (λ ds. c ∷ ds) (essences-located partial w' cs)

  amounts-located :
      (partial : PaymentInitOutputPartial x.PublicKey) (w' : PaymentFinalizeLocalInput)
      (cs : List CoinEssence)
      → amounts (map (located x partial w') cs) ≡ essence_amounts cs
  amounts-located partial w' [] = refl
  amounts-located partial w' (c ∷ cs) = ap (λ ns. c.amount ∷ ns) (amounts-located partial w' cs)

  -- When payment_init accepts, the sum of what comes in does not overflow, the accumulator values
  -- are not distinct, and finalization gives an account state, coins and the publisher's fee
  -- coin, then the coins are the payment's new coins except for the first one, and the balance,
  -- the coins and the fee coin are worth, with that first one, what came in and twice the fee.
  pub finalized_value :
      (w' : PaymentFinalizeLocalInput) (st' : AcctState x.PublicKey) (cs : List Coin)
      (fee_coin : Coin)
      → value_in < u64_mod
      → p.verify_distinct_element w.conditional_nav w.nullifier_accum w.nap_proof ≡ false
      → payment_finalize x p o w' ≡ some (st', cs)
      → payment_finalize_fee x p f w' ≡ some fee_coin
      → (first : CoinEssence) × (rest : List CoinEssence) × (w.new_coins ≡ first ∷ rest)
        × (essences cs ≡ rest)
        × (st'.essence.balance + total (amounts cs) + fee_coin.essence.amount + first.amount
            ≡ value_in + 2 * w.fee)
  unfolding payment_finalize payment_finalize_fee
  finalized_value w' st' cs fee_coin fits distinct h k =
      let (first, rest, worth) = payment_init_value fits distinct in
      let coins_out : map (located x o.partial_output w') o.coin_essences ≡ cs = ground arith in
      let kept : o.acct_state_essence.balance ≡ st'.essence.balance = ground arith in
      let paid : f.fee ≡ fee_coin.essence.amount = ground arith in
      (
        first,
        o.coin_essences,
        rest,
        ap essences (sym coins_out) ∙ essences-located o.partial_output w' o.coin_essences,
        ground (
          arith,
          worth,
          kept,
          paid,
          ap (λ ds. total (amounts ds)) coins_out,
          ap total (amounts-located o.partial_output w' o.coin_essences),
        ),
      )
