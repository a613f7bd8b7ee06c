-- ===== src/Publisher/Fees.antt =====
-- The pending nullifiers of publisher.rs: the fee that each pays, and the aggregate built from them.
use partymixrust.Prelude.{
  ◌≤◌, ◌<◌, ◌≡◌, refl, false, ap, Bool-cases, inl, inr, List, [], ◌∷◌, ◌++◌, map, arith, length,
  All, All-snoc, ltb, Result, Result-cases, ok, err, Outcome, returned, panicked,
}
use partymixrust.ShieldedCsv.Data.{AggregateNullifier}
use partymixrust.ShieldedCsv.Platform.{Platform}
use partymixrust.ShieldedCsv.Primitives.{Primitives}
use partymixrust.Crypto.Nisshac.{NisshacBackend, state_update_message}
use partymixrust.Node.Blocks.{WantsDigest, state_update_message-panicked}
use partymixrust.Publisher.{
  PublisherError, is_empty, fee_mismatch, PendingNullifier, Publisher, submit_nullifier,
  build_aggregate_nullifier, aggregate_with, verify_aggregate_nullifier,
}

is_empty-false : {A : Type 0} (qs : List A) → is_empty qs ≡ false → 0 < length qs
is_empty-false [] h = cc
is_empty-false (q ∷ qs) h = omega arith

false-is_empty : {A : Type 0} (qs : List A) → 0 < length qs → is_empty qs ≡ false
false-is_empty [] h = absurd (omega arith)
false-is_empty (q ∷ qs) h = refl

module _ (x : Platform) (n : NisshacBackend x) where
  -- Every pending nullifier pays at least the configured fee.
  abbrev pub PaysFees : Publisher x n → Type 0
  PaysFees self =
      All (λ (q : PendingNullifier x n). self.config.publisher_fee ≤ q.fee_output.fee) self.pending

  -- The answers of `submit_nullifier`: a fee that is too low changes nothing, any other nullifier
  -- joins the others at the end.
  abbrev pub Submitted :
      Publisher x n → PendingNullifier x n → Publisher x n × Result PublisherError Unit → Type 0
  Submitted self q (self', err e) =
      (self' ≡ self)
      × (q.fee_output.fee < self.config.publisher_fee)
      × (e ≡ fee_mismatch self.config.publisher_fee q.fee_output.fee)
  Submitted self q (self', ok _) =
      (self.config.publisher_fee ≤ q.fee_output.fee)
      × (self' ≡ record self { pending = self.pending ++ q ∷ [] })

  -- If every pending nullifier pays the configured fee, so it is after submit_nullifier, which
  -- appends a nullifier that pays the fee and otherwise changes nothing and answers with both
  -- fees.
  pub submit_nullifier-PaysFees :
      (self : Publisher x n) (q : PendingNullifier x n)
      → PaysFees self
      → PaysFees (submit_nullifier x n self q).0 × Submitted self q (submit_nullifier x n self q)
  unfolding submit_nullifier
  submit_nullifier-PaysFees self q h =
      elim (Bool-cases (ltb q.fee_output.fee self.config.publisher_fee)) [
        | inl low ↦ rw (low, submit_nullifier) (h, (refl, ground arith, refl))
        | inr enough ↦
            let paid : self.config.publisher_fee ≤ q.fee_output.fee = ground arith in
            rw (enough, submit_nullifier)
              (
                All-snoc
                    (λ (r : PendingNullifier x n). self.config.publisher_fee ≤ r.fee_output.fee)
                    self.pending q h paid,
                (paid, refl),
              )
      ]

  -- The triples that are aggregated, and the pairs that a node checks.
  abbrev pub signed :
      x.Message → List (PendingNullifier x n) → List (n.Sig × x.PublicKey × x.Message)
  signed msg = map (λ q. (q.signature, q.nullifier_pk, msg))

  abbrev pub pairs : List (n.Sig × x.PublicKey × x.Message) → List (x.PublicKey × x.Message)
  pairs = map (λ t. (t.1, t.2))

  pairs-signed :
      (msg : x.Message) (qs : List (PendingNullifier x n))
      → map (λ pk. (pk, msg)) (map (λ (q : PendingNullifier x n). q.nullifier_pk) qs)
        ≡ pairs (signed msg qs)
  pairs-signed msg [] = refl
  pairs-signed msg (q ∷ qs) = ap (◌∷◌ (q.nullifier_pk, msg)) (pairs-signed msg qs)

  -- What `build_aggregate_nullifier` has done when it hands out `agg`.
  pub record Built (self : Publisher x n) (agg : AggregateNullifier x.PublicKey) : Type 0 where
    pub msg : x.Message
    pub message : state_update_message x ≡ returned msg
    pub some_pending : 0 < length self.pending
    pub keys : agg.pks ≡ map (λ (q : PendingNullifier x n). q.nullifier_pk) self.pending
    pub signature : n.aggregate (signed msg self.pending) ≡ ok agg.sig
    pub fee_address : agg.fee_acct_comm ≡ self.fee_address
    -- a node checks the aggregate against the pairs that were signed
    pub checked :
        (p : Primitives x)
        → verify_aggregate_nullifier x p agg
          ≡ returned (p.agg_verify agg.sig (pairs (signed msg self.pending)))

  Built-with :
      (self : Publisher x n) (agg : AggregateNullifier x.PublicKey)
      → 0 < length self.pending
      → (m : Outcome x.Message) → state_update_message x ≡ m
      → aggregate_with x n self m ≡ returned (ok agg)
      → Built self agg
  unfolding verify_aggregate_nullifier
  Built-with self agg some_pending panicked e h = cc
  Built-with self agg some_pending (returned msg) e h =
      elim (Result-cases (n.aggregate (signed msg self.pending))) [
        | inl (failure, r) ↦ absurd (ground arith)
        | inr (s, r) ↦
            let keys : agg.pks ≡ map (λ (q : PendingNullifier x n). q.nullifier_pk) self.pending =
              ground arith in
            record {
              msg = msg;
              message = e;
              some_pending = some_pending;
              keys = keys;
              signature = ground arith;
              fee_address = ground arith;
              checked = λ p.
                  rw (e, verify_aggregate_nullifier)
                    (rw (keys, pairs-signed msg self.pending) refl);
            }
      ]

  -- When an aggregate is built, nullifiers are pending, it lists their keys in order and the
  -- publisher's address, its signature is the backend's aggregate of the pending signatures under
  -- the state update message, and verify_aggregate_nullifier checks exactly the signed pairs of
  -- key and message.
  pub build_aggregate_nullifier-Built :
      (self : Publisher x n) (agg : AggregateNullifier x.PublicKey)
      → build_aggregate_nullifier x n self ≡ returned (ok agg)
      → Built self agg
  unfolding build_aggregate_nullifier
  build_aggregate_nullifier-Built self agg h = elim (Bool-cases (is_empty self.pending)) [
    | inl nothing ↦ absurd (ground arith)
    | inr waiting ↦
        Built-with self agg (is_empty-false self.pending waiting) (state_update_message x) refl
          (rw (waiting, build_aggregate_nullifier) at h)
  ]

  -- If a digest has 32 bytes, as secp256k1 documents, build_aggregate_nullifier panics as soon as
  -- a nullifier is pending, and verify_aggregate_nullifier panics on every aggregate.
  pub build_aggregate_nullifier-panicked :
      WantsDigest x
      → (self : Publisher x n) (p : Primitives x) (agg : AggregateNullifier x.PublicKey)
      → 0 < length self.pending
      → (build_aggregate_nullifier x n self ≡ panicked)
        × (verify_aggregate_nullifier x p agg ≡ panicked)
  unfolding build_aggregate_nullifier verify_aggregate_nullifier
  build_aggregate_nullifier-panicked documented self p agg some_pending = (
    rw
        (
          false-is_empty self.pending some_pending,
          state_update_message-panicked x documented,
          build_aggregate_nullifier,
        )
        refl,
    rw (state_update_message-panicked x documented, verify_aggregate_nullifier),
  )
