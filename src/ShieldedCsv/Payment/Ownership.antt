-- ===== src/ShieldedCsv/Payment/Ownership.antt =====
-- Which coins `payment_init` lets an account spend.
use partymixrust.Prelude.{
  ◌≡◌, ◌≢◌, refl, ap₂, fun_ext, true, false, none, sym, ◌∙◌, Bool-cases, ◌⊎◌, inl, inr, some, List,
  [], ◌∷◌, map, arith, returned, Bytes,
}
use partymixrust.ShieldedCsv.Data.{
  Commitment, Coin, AcctState, PaymentInitLocalInput, PaymentInitOutput, PaymentInitOutputFee,
}
use partymixrust.ShieldedCsv.Platform.{Platform}
use partymixrust.ShieldedCsv.Primitives.{Primitives, commit}
use partymixrust.ShieldedCsv.Payment.{
  coins_owned, coin_id, on_chain_id, balance_after, payment_checks, settle, payment_init, or_reject,
}
use partymixrust.ShieldedCsv.Payment.Inversion.{payment_init-returned}

-- Each coin that has an opening is addressed to the account.
abbrev pub Opened : (x : Platform) → Bytes → List Coin → List Bytes → Type 0
Opened x acct [] rands = Unit
Opened x acct (c ∷ cs) [] = Unit
Opened x acct (c ∷ cs) (r ∷ rs) = (c.essence.address ≡ commit x acct r) × Opened x acct cs rs

pub coins_owned-Opened :
    (x : Platform) (acct : Bytes) (cs : List Coin) (rs : List Bytes)
    → coins_owned x acct cs rs ≡ true
    → Opened x acct cs rs
unfolding coins_owned
coins_owned-Opened x acct [] rs h = tt
coins_owned-Opened x acct (c ∷ cs) [] h = tt
coins_owned-Opened x acct (c ∷ cs) (r ∷ rs) h =
    (ground arith, coins_owned-Opened x acct cs rs (ground arith))

pub Opened-coins_owned :
    (x : Platform) (acct : Bytes) (cs : List Coin) (rs : List Bytes)
    → Opened x acct cs rs
    → coins_owned x acct cs rs ≡ true
unfolding coins_owned
Opened-coins_owned x acct [] rs h = refl
Opened-coins_owned x acct (c ∷ cs) [] h = refl
Opened-coins_owned x acct (c ∷ cs) (r ∷ rs) h =
    ground (arith, h.0, Opened-coins_owned x acct cs rs h.1)

coins_owned_unopened :
    (x : Platform) (acct : Bytes) (cs : List Coin) → coins_owned x acct cs [] ≡ true
unfolding coins_owned
coins_owned_unopened x acct [] = refl
coins_owned_unopened x acct (c ∷ cs) = refl

-- The same coin at another address.
abbrev pub readdress : Commitment → Coin → Coin
readdress a c = record c { essence = record c.essence { address = a } }

map-readdress {ℓ} :
    {A : Type ℓ} (a : Commitment) (g : Coin → A) (cs : List Coin)
    → ((c : Coin) → g (readdress a c) ≡ g c)
    → map g (map (readdress a) cs) ≡ map g cs
map-readdress a g [] same_at = refl
map-readdress a g (c ∷ cs) same_at = ap₂ ◌∷◌ (same_at c) (map-readdress a g cs same_at)

readdress-coin_id : (a : Commitment) (c : Coin) → coin_id (readdress a c) ≡ coin_id c
unfolding coin_id
readdress-coin_id a c = refl

readdress-on_chain_id : (a : Commitment) (c : Coin) → on_chain_id (readdress a c) ≡ on_chain_id c
unfolding on_chain_id
readdress-on_chain_id a c = refl

true-false : true ≢ false
true-false h = cc

module _ (x : Platform) (p : Primitives x) (st : AcctState x.PublicKey)
    (w : PaymentInitLocalInput x.PublicKey) where
  -- When payment_init accepts, every spent coin for which there is an opening is addressed to the
  -- account under it.
  pub payment_init-Opened :
      (coins : List Coin) (o : PaymentInitOutput x.PublicKey) (f : PaymentInitOutputFee x.PublicKey)
      → payment_init x p st coins w ≡ returned (some (o, f))
      → Opened x (x.serialize st.essence.id) coins w.acct_comm_rands
  payment_init-Opened coins o f done =
      let (e, tx, checked, verdict) = payment_init-returned x p st coins w o f done in
      coins_owned-Opened x (x.serialize st.essence.id) coins w.acct_comm_rands checked.owned

  module _ (a : Commitment) (coins : List Coin) where
    -- The same payment without openings.
    abbrev pub without_openings : PaymentInitLocalInput x.PublicKey
    without_openings = record w { acct_comm_rands = [] }

    payment_checks_unopened :
        coins_owned x (x.serialize st.essence.id) coins w.acct_comm_rands ≡ true
        → payment_checks x p st (map (readdress a) coins) without_openings
          ≡ payment_checks x p st coins w
    unfolding payment_checks balance_after
    payment_checks_unopened h = simp (
      h,
      coins_owned_unopened x (x.serialize st.essence.id) (map (readdress a) coins),
      map-readdress a (λ c. c.essence.amount) coins (λ c. refl),
      map-readdress a coin_id coins (readdress-coin_id a),
      map-readdress a on_chain_id coins (readdress-on_chain_id a),
    )

    settle_unopened :
        settle x p st (map (readdress a) coins) without_openings ≡ settle x p st coins w
    unfolding settle
    settle_unopened =
        fun_ext λ (e, tx). rw (map-readdress a (λ c. c.nullifier_accum) coins (λ c. refl))

    payment_init_opened :
        coins_owned x (x.serialize st.essence.id) coins w.acct_comm_rands ≡ true
        → payment_init x p st coins w
          ≡ payment_init x p st (map (readdress a) coins) without_openings
    unfolding payment_init
    payment_init_opened h = sym (ap₂ or_reject settle_unopened (payment_checks_unopened h))

    payment_init_rejected :
        coins_owned x (x.serialize st.essence.id) coins w.acct_comm_rands ≡ false
        → payment_init x p st coins w ≡ returned none
    unfolding payment_init payment_checks
    payment_init_rejected h = rw h refl

    -- For any payment, either every spent coin that has an opening is addressed to the account
    -- under it, and payment_init gives the outcome that it gives with no openings after every
    -- spent coin has been given any one other address, or some coin that has an opening is not,
    -- and payment_init rejects.
    pub payment_init_unopened :
        (Opened x (x.serialize st.essence.id) coins w.acct_comm_rands
          × (payment_init x p st coins w
              ≡ payment_init x p st (map (readdress a) coins) without_openings))
        ⊎ (¬ Opened x (x.serialize st.essence.id) coins w.acct_comm_rands
            × (payment_init x p st coins w ≡ returned none))
    payment_init_unopened =
        let acct = x.serialize st.essence.id in
        let rands = w.acct_comm_rands in
        elim (Bool-cases (coins_owned x acct coins rands)) [
          | inl owned ↦ inl (coins_owned-Opened x acct coins rands owned, payment_init_opened owned)
          | inr other ↦ inr (
            λ h. true-false (sym (Opened-coins_owned x acct coins rands h) ∙ other),
            payment_init_rejected other,
          )
        ]
