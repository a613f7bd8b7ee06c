-- ===== src/Publisher/Earnings.antt =====
-- What the publisher of publisher.rs gets from `payment_finalize_fee` of protocol.rs.
use partymixrust.Prelude.{
  ℕ, ◌*◌, ◌≤◌, ◌≡◌, ap, sym, ◌∙◌, subst, refl, some, List, [], ◌∷◌, arith, All, length,
}
use partymixrust.Prelude.Words.{total}
use partymixrust.ShieldedCsv.Data.{
  Coin, Commitment, PaymentInitOutputFee, PaymentFinalizeLocalInput,
}
use partymixrust.ShieldedCsv.Platform.{Platform}
use partymixrust.ShieldedCsv.Primitives.{Primitives}
use partymixrust.ShieldedCsv.Payment.{amounts, payment_finalize_fee}
use partymixrust.Crypto.Nisshac.{NisshacBackend}
use partymixrust.Publisher.{PendingNullifier, Publisher, clear_pending, pending_count}
use partymixrust.Publisher.Fees.{PaysFees}
use partymixrust.Publisher.Rounds.{submit_all, paying, clear_pending-submit_all}

module _ (x : Platform) (p : Primitives x) (n : NisshacBackend x) where
  -- The fee outputs of the nullifiers, finalized to one address, have given these coins.
  abbrev pub FeeCoins : Commitment → List (PendingNullifier x n) → List Coin → Type 0
  FeeCoins address [] [] = Unit
  FeeCoins address [] (c ∷ cs) = ⊥
  FeeCoins address (q ∷ qs) [] = ⊥
  FeeCoins address (q ∷ qs) (c ∷ cs) =
      ((w : PaymentFinalizeLocalInput) × (w.fee_acct_comm ≡ address)
        × (payment_finalize_fee x p q.fee_output w ≡ some c))
      × FeeCoins address qs cs

  finalized_fee :
      (f : PaymentInitOutputFee x.PublicKey) (w : PaymentFinalizeLocalInput) (c : Coin)
      → payment_finalize_fee x p f w ≡ some c
      → (c.essence.amount ≡ f.fee) × (c.essence.address ≡ w.fee_acct_comm)
  unfolding payment_finalize_fee
  finalized_fee f w c h = ground arith

  FeeCoins-earned :
      (address : Commitment) (fee : ℕ) (qs : List (PendingNullifier x n)) (cs : List Coin)
      → All (λ (q : PendingNullifier x n). fee ≤ q.fee_output.fee) qs
      → FeeCoins address qs cs
      → (length cs ≡ length qs)
        × (length qs * fee ≤ total (amounts cs))
        × All (λ (c : Coin). c.essence.address ≡ address) cs
  unfolding total
  FeeCoins-earned address fee [] [] paid h = (refl, omega arith, tt)
  FeeCoins-earned address fee [] (c ∷ cs) paid h = absurd h
  FeeCoins-earned address fee (q ∷ qs) [] paid h = absurd h
  FeeCoins-earned address fee (q ∷ qs) (c ∷ cs) paid ((w, to, made), rest) =
      let (worth, at) = finalized_fee q.fee_output w c made in
      let (count, earned, addressed) = FeeCoins-earned address fee qs cs paid.1 rest in
      (ground arith, omega (arith, earned, paid.0, worth), (at ∙ to, addressed))

  -- After clear_pending and any sequence of submissions, the pending nullifiers are exactly the
  -- submitted ones that pay the configured fee, in their order, and if each of their fee outputs
  -- is finalized to the publisher's address, the coins are as many as pending_count says, worth
  -- at least that many fees, and all at that address.
  pub clear_pending-FeeCoins :
      (self : Publisher x n) (qs : List (PendingNullifier x n)) (cs : List Coin)
      → let self' = submit_all x n (clear_pending x n self) qs in
        FeeCoins self.fee_address self'.pending cs
        → (self'.pending ≡ paying x n self.config.publisher_fee qs)
          × (length cs ≡ pending_count x n self')
          × (pending_count x n self' * self.config.publisher_fee ≤ total (amounts cs))
          × All (λ (c : Coin). c.essence.address ≡ self.fee_address) cs
  unfolding pending_count
  clear_pending-FeeCoins self qs cs coins =
      let fee = self.config.publisher_fee in
      let (e, count, paid) = clear_pending-submit_all x n self qs in
      let (same, earned, addressed) =
        FeeCoins-earned self.fee_address fee (paying x n fee qs) cs (subst (PaysFees x n) e paid)
          (subst (λ (s : Publisher x n). FeeCoins self.fee_address s.pending cs) e coins) in
      (
        ap (λ (s : Publisher x n). s.pending) e,
        same ∙ sym count,
        subst (λ k. k * fee ≤ total (amounts cs)) (sym count) earned,
        addressed,
      )
