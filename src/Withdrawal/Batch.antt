-- ===== src/Withdrawal/Batch.antt =====
-- How a batch of `process_batched_withdrawals` of withdrawal_handler.rs ends.
use partymixrust.Prelude.{
  ℕ, suc, ◌≤◌, ◌<◌, ◌≡◌, sym, subst, true, false, Bool-cases, inl, inr, List, [], ◌∷◌, arith, Bytes,
  length, ltb, Result, Result-cases, ok, err,
}
use partymixrust.ShieldedCsv.Platform.{Platform}
use partymixrust.Types.{MixerConfig, MixerWithdrawalRequest, WithdrawalDelivery}
use partymixrust.Wallet.{WalletState}
use partymixrust.Crypto.Pcd.{PcdBackend}
use partymixrust.Node.{MixerNode}
use partymixrust.Withdrawal.{
  WithdrawalHandler, WithdrawalError, batching_disabled, batch_too_large, push_delivery,
  process_single_withdrawal, process_all, process_batched_withdrawals,
}
use partymixrust.Withdrawal.Process.{Answers, process_single_withdrawal-Answers}

module _ (x : Platform) (b : PcdBackend x) (self : WithdrawalHandler) (node : MixerNode x b)
    (wallet : WalletState x) (draws : ℕ → Bytes) where
  -- From the draw `i` on, one delivery for each request, in their order, which is what the request
  -- on its own gives and which answers it.
  abbrev pub AllDelivered :
      ℕ → List (MixerWithdrawalRequest x) → List (WithdrawalDelivery x) → Type 0
  AllDelivered i [] [] = Unit
  AllDelivered i [] (d ∷ ds) = ⊥
  AllDelivered i (r ∷ rs) [] = ⊥
  AllDelivered i (r ∷ rs) (d ∷ ds) =
      (process_single_withdrawal x b self node wallet r (draws i) ≡ ok d)
      × Answers x b self node wallet r d
      × AllDelivered (suc i) rs ds

  -- The error is that of the first request that fails.
  pub data StoppedBy (e : WithdrawalError) : ℕ → List (MixerWithdrawalRequest x) → Type 0 where
    first :
        {i : ℕ} {r : MixerWithdrawalRequest x} {rs : List (MixerWithdrawalRequest x)}
        → process_single_withdrawal x b self node wallet r (draws i) ≡ err e
        → StoppedBy e i (r ∷ rs)
    later :
        {i : ℕ} {r : MixerWithdrawalRequest x} {rs : List (MixerWithdrawalRequest x)}
        (d : WithdrawalDelivery x)
        → process_single_withdrawal x b self node wallet r (draws i) ≡ ok d
        → StoppedBy e (suc i) rs
        → StoppedBy e i (r ∷ rs)

  abbrev AllOutcome :
      ℕ
      → List (MixerWithdrawalRequest x)
      → Result WithdrawalError (List (WithdrawalDelivery x))
      → Type 0
  AllOutcome i rs (err e) = StoppedBy e i rs
  AllOutcome i rs (ok ds) = AllDelivered i rs ds

  push-AllOutcome :
      (i : ℕ) (r : MixerWithdrawalRequest x) (rs : List (MixerWithdrawalRequest x))
      (d : WithdrawalDelivery x) (rest : Result WithdrawalError (List (WithdrawalDelivery x)))
      → process_single_withdrawal x b self node wallet r (draws i) ≡ ok d
      → AllOutcome (suc i) rs rest
      → AllOutcome i (r ∷ rs) (push_delivery x b (ok d) rest)
  push-AllOutcome i r rs d (err e) single h = later d single h
  push-AllOutcome i r rs d (ok ds) single h =
      (single, process_single_withdrawal-Answers x b self node wallet r (draws i) d single, h)

  process_all-AllOutcome :
      (i : ℕ) (rs : List (MixerWithdrawalRequest x))
      → AllOutcome i rs (process_all x b self node wallet draws i rs)
  unfolding process_all
  process_all-AllOutcome i [] = tt
  process_all-AllOutcome i (r ∷ rs) =
      elim (Result-cases (process_single_withdrawal x b self node wallet r (draws i))) [
        | inl (e, single) ↦ rw single (first single)
        | inr (d, single) ↦
            rw single (push-AllOutcome i r rs d _ single (process_all-AllOutcome (suc i) rs))
      ]

  -- Why a batch is refused: batching is switched off, the batch is too large, or a request fails.
  pub data Refused (config : MixerConfig) (rs : List (MixerWithdrawalRequest x))
      : WithdrawalError → Type 0 where
    disabled : config.allow_batched_withdrawals ≡ false → Refused config rs batching_disabled
    large :
        config.allow_batched_withdrawals ≡ true
        → config.max_batch_size < length rs
        → Refused config rs (batch_too_large (length rs) config.max_batch_size)
    failed :
        {e : WithdrawalError}
        → config.allow_batched_withdrawals ≡ true
        → length rs ≤ config.max_batch_size
        → StoppedBy e 0 rs
        → Refused config rs e

  abbrev pub BatchOutcome :
      MixerConfig
      → List (MixerWithdrawalRequest x)
      → Result WithdrawalError (List (WithdrawalDelivery x))
      → Type 0
  BatchOutcome config rs (err e) = Refused config rs e
  BatchOutcome config rs (ok ds) =
      (config.allow_batched_withdrawals ≡ true)
      × (length rs ≤ config.max_batch_size)
      × AllDelivered 0 rs ds

  AllOutcome-BatchOutcome :
      (config : MixerConfig) (rs : List (MixerWithdrawalRequest x))
      (a : Result WithdrawalError (List (WithdrawalDelivery x)))
      → config.allow_batched_withdrawals ≡ true
      → length rs ≤ config.max_batch_size
      → AllOutcome 0 rs a
      → BatchOutcome config rs a
  AllOutcome-BatchOutcome config rs (err e) on small h = failed on small h
  AllOutcome-BatchOutcome config rs (ok ds) on small h = (on, small, h)

  -- A batch that is allowed and small enough is processed request by request.
  batch-eq-process_all :
      (rs : List (MixerWithdrawalRequest x)) (config : MixerConfig)
      → config.allow_batched_withdrawals ≡ true
      → length rs ≤ config.max_batch_size
      → process_batched_withdrawals x b self node wallet rs config draws
        ≡ process_all x b self node wallet draws 0 rs
  unfolding process_batched_withdrawals
  batch-eq-process_all rs config on small = ground arith

  -- A batch that is answered Ok is allowed, no larger than the maximum, and has in order one
  -- delivery for each request, which is what the request gives on its own with its draw and which
  -- answers the request; a batch that is refused is refused because batching is switched off,
  -- because it is allowed but larger than the maximum, or, allowed and small enough, with the
  -- error of its first request that fails.
  pub process_batched_withdrawals-BatchOutcome :
      (rs : List (MixerWithdrawalRequest x)) (config : MixerConfig)
      → BatchOutcome config rs (process_batched_withdrawals x b self node wallet rs config draws)
  unfolding process_batched_withdrawals
  process_batched_withdrawals-BatchOutcome rs config =
      elim (Bool-cases config.allow_batched_withdrawals) [
        | inl on ↦ elim (Bool-cases (ltb config.max_batch_size (length rs))) [
          | inl over ↦
              subst (BatchOutcome config rs)
                {x = err (batch_too_large (length rs) config.max_batch_size)} (ground arith)
                (large on (ground arith))
          | inr within ↦
              let small : length rs ≤ config.max_batch_size = ground arith in
              subst (BatchOutcome config rs) (sym (batch-eq-process_all rs config on small))
                (AllOutcome-BatchOutcome config rs _ on small (process_all-AllOutcome 0 rs))
        ]
        | inr off ↦
            subst (BatchOutcome config rs) {x = err batching_disabled} (ground arith) (disabled off)
      ]
