-- ===== src/ShieldedCsv/Compliance/Rules.antt =====
-- The edges that the compliance predicate of protocol.rs admits, as rules.
use partymixrust.Prelude.{
  ◌≡◌, refl, ap, sym, ◌∙◌, true, some, Option-cases, List, [], ◌∷◌, map, arith, same, Member, ◌⊎◌,
  inl, inr, returned,
}
use partymixrust.ShieldedCsv.Data.{
  Coin, AcctState, PaymentInitLocalInput, PaymentInitOutput, PaymentInitOutputFee,
  PaymentFinalizeLocalInput, LocalInput, payment_init_input, payment_finalize_input, EdgeLabel,
  acct_state, coin, init_output, fee_output,
}
use partymixrust.ShieldedCsv.Equality.{edge_discrete, init_output_discrete, fee_output_discrete}
use partymixrust.ShieldedCsv.Platform.{Platform}
use partymixrust.ShieldedCsv.Primitives.{Primitives}
use partymixrust.ShieldedCsv.Payment.{
  payment_init, payment_init_newacct, payment_finalize, payment_finalize_fee,
}
use partymixrust.ShieldedCsv.Compliance.{coins_of, edge_eq, any_coin, output_matches}

abbrev pub coin_edges : {K : Type 0} → List Coin → List (EdgeLabel K)
coin_edges = map coin

pub same-true : {A : Type 0} {a b : A} (d : Dec (a ≡ b)) → same d ≡ true → a ≡ b
same-true (yes e) h = e
same-true (no e) h = cc

pub true-same : {A : Type 0} {a b : A} (d : Dec (a ≡ b)) → a ≡ b → same d ≡ true
true-same (yes e) h = refl
true-same (no e) h = absurd (e h)

module _ (x : Platform) (p : Primitives x) where
  pub data Complies
      : EdgeLabel x.PublicKey → LocalInput x.PublicKey → List (EdgeLabel x.PublicKey) → Type 0 where
    -- an account spends coins
    init_account :
        (st : AcctState x.PublicKey) (coins : List Coin) (w : PaymentInitLocalInput x.PublicKey)
        (o : PaymentInitOutput x.PublicKey) (f : PaymentInitOutputFee x.PublicKey)
        → payment_init x p st coins w ≡ returned (some (o, f))
        → (z : EdgeLabel x.PublicKey) → (z ≡ init_output o) ⊎ (z ≡ fee_output f)
        → Complies z (payment_init_input w) (acct_state st ∷ coin_edges coins)
    -- a new account spends coins, at least one
    init_newacct :
        (c : Coin) (coins : List Coin) (w : PaymentInitLocalInput x.PublicKey)
        (o : PaymentInitOutput x.PublicKey) (f : PaymentInitOutputFee x.PublicKey)
        → payment_init_newacct x p (c ∷ coins) w ≡ returned (some (o, f))
        → (z : EdgeLabel x.PublicKey) → (z ≡ init_output o) ⊎ (z ≡ fee_output f)
        → Complies z (payment_init_input w) (coin c ∷ coin_edges coins)
    -- the owner finalizes
    finalize :
        (o : PaymentInitOutput x.PublicKey) (w : PaymentFinalizeLocalInput)
        (st : AcctState x.PublicKey) (coins : List Coin)
        → payment_finalize x p o w ≡ some (st, coins)
        → (z : EdgeLabel x.PublicKey)
        → (z ≡ acct_state st) ⊎ ((c : Coin) × (z ≡ coin c) × Member c coins)
        → Complies z (payment_finalize_input w) (init_output o ∷ [])
    -- the publisher finalizes
    finalize_fee :
        (f : PaymentInitOutputFee x.PublicKey) (w : PaymentFinalizeLocalInput) (c : Coin)
        → payment_finalize_fee x p f w ≡ some c
        → Complies (coin c) (payment_finalize_input w) (fee_output f ∷ [])

  pub edge_eq-true : (a b : EdgeLabel x.PublicKey) → edge_eq x a b ≡ true → a ≡ b
  unfolding edge_eq
  edge_eq-true a b h = same-true (edge_discrete x.pk_discrete a b) h

  pub edge_eq_refl : (a : EdgeLabel x.PublicKey) → edge_eq x a a ≡ true
  unfolding edge_eq
  edge_eq_refl a = true-same (edge_discrete x.pk_discrete a a) refl

  pub any_coin-Member :
      (z : EdgeLabel x.PublicKey) (cs : List Coin)
      → any_coin x z cs ≡ true
      → (c : Coin) × (z ≡ coin c) × Member c cs
  unfolding any_coin
  any_coin-Member z [] h = cc
  any_coin-Member z (c ∷ cs) h = elim (edge_discrete x.pk_discrete z (coin c)) [
    | yes e ↦ (c, e, inl refl)
    | no ne ↦ let (d, e, m) = any_coin-Member z cs (ground arith) in (d, e, inr m)
  ]

  pub Member-any_coin : (c : Coin) (cs : List Coin) → Member c cs → any_coin x (coin c) cs ≡ true
  unfolding any_coin
  Member-any_coin c [] h = absurd h
  Member-any_coin c (d ∷ ds) (inl e) =
      ground (arith, true-same (edge_discrete x.pk_discrete (coin c) (coin d)))
  Member-any_coin c (d ∷ ds) (inr m) = ground (arith, Member-any_coin c ds m)

  pub coins_of-edges : (cs : List Coin) → coins_of {K = x.PublicKey} (coin_edges cs) ≡ some cs
  unfolding coins_of
  coins_of-edges [] = refl
  coins_of-edges (c ∷ cs) = rw (coins_of-edges cs)

  pub coins_of-some :
      (es : List (EdgeLabel x.PublicKey)) (cs : List Coin)
      → coins_of es ≡ some cs
      → es ≡ coin_edges cs
  unfolding coins_of
  coins_of-some [] cs h = ground arith
  coins_of-some (coin c ∷ es) cs h = elim (Option-cases (coins_of es)) [
    | inl e ↦ absurd (ground arith)
    | inr (ds, e) ↦
        ap (◌∷◌ (coin c)) (coins_of-some es ds e) ∙ ap coin_edges {x = c ∷ ds} (ground arith)
  ]
  coins_of-some (e ∷ es) cs h = cc

  pub output_matches-inv :
      (z : EdgeLabel x.PublicKey) (o : PaymentInitOutput x.PublicKey)
      (f : PaymentInitOutputFee x.PublicKey)
      → output_matches x z (some (o, f)) ≡ true
      → (z ≡ init_output o) ⊎ (z ≡ fee_output f)
  unfolding output_matches
  output_matches-inv (init_output o') o f h =
      inl (ap init_output (sym (same-true (init_output_discrete x.pk_discrete o o') h)))
  output_matches-inv (fee_output f') o f h =
      inr (ap fee_output (sym (same-true (fee_output_discrete x.pk_discrete f f') h)))
  output_matches-inv z o f h = cc

  pub output_matches-intro :
      (z : EdgeLabel x.PublicKey) (o : PaymentInitOutput x.PublicKey)
      (f : PaymentInitOutputFee x.PublicKey)
      → (z ≡ init_output o) ⊎ (z ≡ fee_output f)
      → output_matches x z (some (o, f)) ≡ true
  unfolding output_matches
  output_matches-intro z o f (inl e) =
      rw e (true-same (init_output_discrete x.pk_discrete o o) refl)
  output_matches-intro z o f (inr e) = rw e (true-same (fee_output_discrete x.pk_discrete f f) refl)
