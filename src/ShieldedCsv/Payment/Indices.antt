-- ===== src/ShieldedCsv/Payment/Indices.antt =====
-- The index check of `payment_init`, and the identities of the coins of one transaction.
use partymixrust.Prelude.{
  ◌≡◌, ◌≢◌, sym, subst, true, some, List, [], ◌∷◌, ◌++◌, map, arith, All, All-mono, Apart, inl, inr,
  returned,
}
use partymixrust.ShieldedCsv.Data.{
  CoinIndex, CoinEssence, Coin, AcctState, PaymentInitLocalInput, PaymentInitOutput,
  PaymentInitOutputPartial, PaymentInitOutputFee, PaymentFinalizeLocalInput,
}
use partymixrust.ShieldedCsv.Platform.{Platform}
use partymixrust.ShieldedCsv.Primitives.{Primitives}
use partymixrust.ShieldedCsv.Payment.{
  idx_lt, idx_bytes, fee_idx, indices_after, indices_ok, coin_id, on_chain_id, located,
  payment_init, payment_finalize, payment_finalize_fee,
}
use partymixrust.ShieldedCsv.Payment.Inversion.{payment_init-returned}

idx_lt_trans : (a b c : CoinIndex) → idx_lt a b ≡ true → idx_lt b c ≡ true → idx_lt a c ≡ true
idx_lt_trans a b c h k = ground arith

idx_lt_irrefl : (a : CoinIndex) → idx_lt a a ≡ true → ⊥
idx_lt_irrefl a h = ground arith

abbrev Above : CoinIndex → CoinEssence → Type 0
Above i c = idx_lt i c.idx ≡ true

indices_after-Above :
    (i : CoinIndex) (cs : List CoinEssence) → indices_after i cs ≡ true → All (Above i) cs
unfolding indices_after
indices_after-Above i [] h = tt
indices_after-Above i (c ∷ cs) h =
    let lt : idx_lt i c.idx ≡ true = ground arith in
    (
      lt,
      All-mono (Above c.idx) (Above i) cs (λ d. idx_lt_trans i c.idx d.idx lt)
          (indices_after-Above c.idx cs (ground arith)),
    )

-- Each coin has an index of its own, and none has the fee coin's.
abbrev OwnIndex : List CoinEssence → Type 0
OwnIndex cs = All (λ c. c.idx ≢ fee_idx) cs × Apart (λ a b. a.idx ≢ b.idx) cs

idx_lt-ne : (i j : CoinIndex) → idx_lt i j ≡ true → i ≢ j
idx_lt-ne i j h e = idx_lt_irrefl j (subst (λ k. idx_lt k j ≡ true) e h)

indices_after-OwnIndex :
    (i : CoinIndex) (cs : List CoinEssence) → indices_after i cs ≡ true → OwnIndex cs
unfolding indices_after
indices_after-OwnIndex i [] h = (tt, tt)
indices_after-OwnIndex i (c ∷ cs) h =
    let later : indices_after c.idx cs ≡ true = ground arith in
    let rest = indices_after-OwnIndex c.idx cs later in
    (
      (λ e. ground arith, rest.0),
      (
        All-mono (Above c.idx) (λ d. c.idx ≢ d.idx) cs (λ d. idx_lt-ne c.idx d.idx)
            (indices_after-Above c.idx cs later),
        rest.1,
      ),
    )

indices_ok-OwnIndex :
    (c : CoinEssence) (cs : List CoinEssence) → indices_ok (c ∷ cs) ≡ true → OwnIndex cs
unfolding indices_ok
indices_ok-OwnIndex c cs h = indices_after-OwnIndex c.idx cs h

append-injective {ℓ} : {A : Type ℓ} (xs ys zs : List A) → xs ++ ys ≡ xs ++ zs → ys ≡ zs
append-injective [] ys zs e = e
append-injective (x ∷ xs) ys zs e = append-injective xs ys zs (cc)

idx_bytes-injective : (i j : CoinIndex) → idx_bytes i ≡ idx_bytes j → i ≡ j
idx_bytes-injective i j e = ground arith

-- Two coins that share neither identifier.
abbrev pub OtherIds : Coin → Coin → Type 0
OtherIds a b = (coin_id a ≢ coin_id b) × (on_chain_id a ≢ on_chain_id b)

module _ (x : Platform) (out : PaymentInitOutputPartial x.PublicKey)
    (w : PaymentFinalizeLocalInput) where
  located-OtherIds :
      (a b : CoinEssence) → a.idx ≢ b.idx → OtherIds (located x out w a) (located x out w b)
  unfolding coin_id on_chain_id
  located-OtherIds a b h = (
    λ e. h (idx_bytes-injective _ _ (append-injective out.tx_hash _ _ e)),
    λ e. h (idx_bytes-injective _ _ (append-injective w.blockchain_loc _ _ e)),
  )

  located-All :
      (a : CoinEssence) (cs : List CoinEssence)
      → All (λ b. a.idx ≢ b.idx) cs
      → All (OtherIds (located x out w a)) (map (located x out w) cs)
  located-All a [] h = tt
  located-All a (c ∷ cs) h = (located-OtherIds a c h.0, located-All a cs h.1)

  located-Apart :
      (cs : List CoinEssence)
      → Apart (λ a b. a.idx ≢ b.idx) cs
      → Apart OtherIds (map (located x out w) cs)
  located-Apart [] h = tt
  located-Apart (c ∷ cs) h = (located-All c cs h.0, located-Apart cs h.1)

module _ (x : Platform) (p : Primitives x) (st : AcctState x.PublicKey) (coins : List Coin)
    (w : PaymentInitLocalInput x.PublicKey) (o : PaymentInitOutput x.PublicKey)
    (f : PaymentInitOutputFee x.PublicKey)
    (done : payment_init x p st coins w ≡ returned (some (o, f))) where
  payment_init-OwnIndex : OwnIndex o.coin_essences × (f.partial_output ≡ o.partial_output)
  payment_init-OwnIndex =
      let (e, tx, checked, verdict) = payment_init-returned x p st coins w o f done in
      elim verdict [
        | inl skipped ↦ (rw skipped.coins_out (tt, tt), skipped.partials)
        | inr made ↦ (
          indices_ok-OwnIndex made.first o.coin_essences
              (subst (λ cs. indices_ok cs ≡ true) made.coins_out checked.indices),
          made.partials,
        )
      ]

  -- The coins and the fee coin that are finalized from one accepted payment with one and the same
  -- finalization input differ pairwise in coin identifier and in on-chain identifier.
  pub finalized-Apart :
      (w' : PaymentFinalizeLocalInput) (st' : AcctState x.PublicKey) (cs : List Coin)
      (fee_coin : Coin)
      → payment_finalize x p o w' ≡ some (st', cs)
      → payment_finalize_fee x p f w' ≡ some fee_coin
      → Apart OtherIds (fee_coin ∷ cs)
  unfolding payment_finalize payment_finalize_fee
  finalized-Apart w' st' cs fee_coin h k =
      let (own, partials) = payment_init-OwnIndex in
      let es : map (located x o.partial_output w') o.coin_essences ≡ cs = ground arith in
      let fee_essence : CoinEssence = record {
        address = w'.fee_acct_comm;
        amount = f.fee;
        idx = fee_idx;
      } in
      let fc : located x o.partial_output w' fee_essence ≡ fee_coin = ground arith in
      subst (λ c. Apart OtherIds (c ∷ cs)) fc
        (subst (λ ds. Apart OtherIds (located x o.partial_output w' fee_essence ∷ ds)) es
          (located-Apart x o.partial_output w' (fee_essence ∷ o.coin_essences) (
            All-mono (λ (c : CoinEssence). c.idx ≢ fee_idx) (λ c. fee_idx ≢ c.idx) o.coin_essences
                (λ c ne e. ne (sym e)) own.0,
            own.1,
          )))
