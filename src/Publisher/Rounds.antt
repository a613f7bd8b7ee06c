-- ===== src/Publisher/Rounds.antt =====
-- The rounds of publisher.rs: `clear_pending`, then any number of `submit_nullifier`.
use partymixrust.Prelude.{
  ℕ, ◌≤◌, ◌≡◌, ap, sym, ◌∙◌, Bool-cases, inl, inr, List, [], ◌∷◌, ◌++◌, arith, length, ltb,
  if◌then◌else◌, All,
}
use mathlib.Core.List.{append_assoc, append-nil}
use partymixrust.ShieldedCsv.Platform.{Platform}
use partymixrust.Crypto.Nisshac.{NisshacBackend}
use partymixrust.Publisher.{
  PendingNullifier, Publisher, submit_nullifier, clear_pending, pending_count,
}
use partymixrust.Publisher.Fees.{PaysFees}

module _ (x : Platform) (n : NisshacBackend x) where
  unfoldable pub submit_all : Publisher x n → List (PendingNullifier x n) → Publisher x n
  submit_all self [] = self
  submit_all self (q ∷ qs) = submit_all (submit_nullifier x n self q).0 qs

  -- Those that pay the fee, in their order.
  unfoldable pub paying : ℕ → List (PendingNullifier x n) → List (PendingNullifier x n)
  paying fee [] = []
  paying fee (q ∷ qs) =
      let rest = paying fee qs in if ltb q.fee_output.fee fee then rest else q ∷ rest

  submit_all-pending :
      (self : Publisher x n) (qs : List (PendingNullifier x n))
      → submit_all self qs
        ≡ record self { pending = self.pending ++ paying self.config.publisher_fee qs }
  unfolding submit_all paying submit_nullifier
  submit_all-pending self [] =
      ap (λ ps. record self { pending = ps }) (sym (append-nil self.pending))
  submit_all-pending self (q ∷ qs) =
      elim (Bool-cases (ltb q.fee_output.fee self.config.publisher_fee)) [
        | inl low ↦ rw (low, submit_nullifier) (submit_all-pending self qs)
        | inr enough ↦
            rw (enough, submit_nullifier)
              (submit_all-pending (record self { pending = self.pending ++ q ∷ [] }) qs
                ∙ ap (λ ps. record self { pending = ps })
                    (append_assoc self.pending (q ∷ []) (paying self.config.publisher_fee qs)))
      ]

  paying-PaysFees :
      (fee : ℕ) (qs : List (PendingNullifier x n))
      → All (λ (q : PendingNullifier x n). fee ≤ q.fee_output.fee) (paying fee qs)
  unfolding paying
  paying-PaysFees fee [] = tt
  paying-PaysFees fee (q ∷ qs) = elim (Bool-cases (ltb q.fee_output.fee fee)) [
    | inl low ↦ rw low (paying-PaysFees fee qs)
    | inr enough ↦ rw enough (ground arith, paying-PaysFees fee qs)
  ]

  -- After clear_pending and any sequence of submissions, the pending nullifiers are exactly the
  -- submitted ones that pay the configured fee, in their order, pending_count is their number,
  -- and the rest of the publisher is as before.
  pub clear_pending-submit_all :
      (self : Publisher x n) (qs : List (PendingNullifier x n))
      → let self' = submit_all (clear_pending x n self) qs in
        (self' ≡ record self { pending = paying self.config.publisher_fee qs })
        × (pending_count x n self' ≡ length (paying self.config.publisher_fee qs))
        × PaysFees x n self'
  unfolding clear_pending pending_count
  clear_pending-submit_all self qs =
      let e = submit_all-pending (clear_pending x n self) qs in
      (
        e,
        ap (λ (s : Publisher x n). length s.pending) e,
        rw e (paying-PaysFees self.config.publisher_fee qs),
      )
