-- ===== src/ShieldedCsv/Debug/Additions.antt =====
-- When the additions of `payment_init` panic in a debug build.
use partymixrust.Prelude.{
  ℕ, ◌+◌, ◌≤◌, ◌<◌, ◌≡◌, refl, ap, ◌∙◌, none, some, Option-cases, inl, inr, List, [], ◌∷◌, arith,
  returned, panicked, Bool-cases, ltb,
}
use partymixrust.Prelude.Words.{u64_max, total, wrapping_add, wrapping_sum, wrapping_sum-eq-total}
use partymixrust.ShieldedCsv.Data.{Coin, PaymentInitLocalInput, CoinEssence}
use partymixrust.ShieldedCsv.Platform.{Platform}
use partymixrust.ShieldedCsv.Payment.{amounts, checked_total, balance_after}
use partymixrust.ShieldedCsv.Payment.Balance.{essence_amounts, checked_total-eq-total}
use partymixrust.ShieldedCsv.Debug.{
  add_debug, sum_debug, funds_debug, coins_sum, balance_after_debug,
}

add_fits : (a b : ℕ) → a + b ≤ u64_max → add_debug a b ≡ returned (a + b)
unfolding add_debug
add_fits a b h = ground arith

add_panics : (a b : ℕ) → u64_max < a + b → add_debug a b ≡ panicked
unfolding add_debug
add_panics a b h = ground arith

sum_fits :
    (as' : List ℕ) (acc : ℕ)
    → acc + total as' ≤ u64_max
    → sum_debug as' acc ≡ returned (acc + total as')
unfolding sum_debug total
sum_fits [] acc h = ap returned (omega arith)
sum_fits (a ∷ as') acc h =
    rw (add_fits acc a (omega arith))
      (sum_fits as' (acc + a) (omega arith) ∙ ap returned (omega arith))

sum_panics :
    (as' : List ℕ) (acc : ℕ)
    → acc ≤ u64_max
    → u64_max < acc + total as'
    → sum_debug as' acc ≡ panicked
unfolding sum_debug total
sum_panics [] acc small h = absurd (omega arith)
sum_panics (a ∷ as') acc small h = elim (Bool-cases (ltb u64_max (acc + a))) [
  | inl over ↦ rw (add_panics acc a (ground arith)) refl
  | inr fits ↦
      rw (add_fits acc a (ground arith)) (sum_panics as' (acc + a) (ground arith) (omega arith))
]

pub funds_fits :
    (b : ℕ) (cs : List Coin)
    → b + total (amounts cs) ≤ u64_max
    → funds_debug b cs ≡ returned (b + total (amounts cs))
unfolding funds_debug
funds_fits b cs h =
    rw (sum_fits (amounts cs) 0 (omega arith))
      (add_fits b (0 + total (amounts cs)) (omega arith) ∙ ap returned (omega arith))

pub funds_panics :
    (b : ℕ) (cs : List Coin) → u64_max < b + total (amounts cs) → funds_debug b cs ≡ panicked
unfolding funds_debug
funds_panics b cs h = elim (Bool-cases (ltb u64_max (total (amounts cs)))) [
  | inl over ↦ rw (sum_panics (amounts cs) 0 (omega arith) (ground arith)) refl
  | inr fits ↦ rw (sum_fits (amounts cs) 0 (ground arith)) (add_panics b _ (omega arith))
]

module _ (x : Platform) (w : PaymentInitLocalInput x.PublicKey) where
  -- The new coins fit in u64 and cover the fee.
  pub record Spends (spent : ℕ) : Type 0 where
    pub sum_fits : total (essence_amounts w.new_coins) ≤ u64_max
    pub covers : spent + w.fee ≡ total (essence_amounts w.new_coins)

  checked_total_bounded :
      (cs : List CoinEssence) (acc t : ℕ)
      → acc ≤ u64_max
      → checked_total cs acc ≡ some t
      → t ≤ u64_max
  unfolding checked_total
  checked_total_bounded [] acc t small h = ground arith
  checked_total_bounded (c ∷ cs) acc t small h =
      ground (arith, checked_total_bounded cs (acc + c.amount) t)

  checked_total_fits :
      (cs : List CoinEssence) (acc : ℕ)
      → acc + total (essence_amounts cs) ≤ u64_max
      → checked_total cs acc ≡ some (acc + total (essence_amounts cs))
  unfolding checked_total total
  checked_total_fits [] acc h = ap some (omega arith)
  checked_total_fits (c ∷ cs) acc h = ground (arith, checked_total_fits cs (acc + c.amount))

  pub coins_sum-Spends : (spent : ℕ) → coins_sum x w ≡ some spent → Spends spent
  unfolding coins_sum
  coins_sum-Spends spent h = elim (Option-cases (checked_total w.new_coins 0)) [
    | inl over ↦ absurd (ground arith)
    | inr (t, e) ↦
        let exact = checked_total-eq-total w.new_coins 0 t e in
        let small = checked_total_bounded w.new_coins 0 t (omega arith) e in
        record { sum_fits = ground arith; covers = ground arith }
  ]

  pub Spends-coins_sum : (spent : ℕ) → Spends spent → coins_sum x w ≡ some spent
  unfolding coins_sum
  Spends-coins_sum spent h = ground (arith, h, checked_total_fits w.new_coins 0)

  -- Where no addition overflows, both builds have the same balance.
  pub balance_after-same :
      (b : ℕ) (cs : List Coin)
      → b + total (amounts cs) ≤ u64_max
      → balance_after_debug x b cs w ≡ returned (balance_after x b cs w)
  unfolding balance_after_debug balance_after coins_sum
  balance_after-same b cs h =
      let funds : wrapping_add b (wrapping_sum (amounts cs) 0) ≡ b + total (amounts cs) =
        omega (arith, wrapping_sum-eq-total (amounts cs) (omega arith)) in
      rw funds (elim (Option-cases (checked_total w.new_coins 0)) [
        | inl over ↦ rw (balance_after_debug, over) refl
        | inr (t, e) ↦ elim (Bool-cases (ltb t w.fee)) [
          | inl short ↦ rw (balance_after_debug, e, short) refl
          | inr covered ↦ rw (balance_after_debug, e, covered, funds_fits b cs h) refl
        ]
      ])

  pub balance_after_panics :
      (b : ℕ) (cs : List Coin) (spent : ℕ)
      → u64_max < b + total (amounts cs)
      → coins_sum x w ≡ some spent
      → balance_after_debug x b cs w ≡ panicked
  unfolding balance_after_debug
  balance_after_panics b cs spent h e = rw (balance_after_debug, e, funds_panics b cs h) refl

  pub balance_after_rejected :
      (b : ℕ) (cs : List Coin) → coins_sum x w ≡ none → balance_after_debug x b cs w ≡ returned none
  unfolding balance_after_debug
  balance_after_rejected b cs e = rw (balance_after_debug, e) refl
