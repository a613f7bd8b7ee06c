-- ===== src/Publisher/Published.antt =====
-- From `build_aggregate_nullifier` of publisher.rs to `process_block` of mixer_node.rs, both after
-- their state update message.
use partymixrust.Prelude.{
  ℕ, ◌≡◌, subst, true, List, ◌∷◌, ◌++◌, map, arith, some, Result, err, All, All-of_Member,
  All-of_map, ok, returned,
}
use partymixrust.Prelude.HashMap
use partymixrust.ShieldedCsv.Data.{AggregateNullifier, Signature}
use partymixrust.ShieldedCsv.Platform.{Platform}
use partymixrust.ShieldedCsv.Primitives.{Primitives}
use partymixrust.Wallet.{NullifierKvEntry}
use partymixrust.Crypto.Nisshac.{NisshacBackend, NisshacError}
use partymixrust.Crypto.Pcd.{PcdBackend}
use partymixrust.Node.{MixerNode, apply_block}
use partymixrust.Node.Permanence.{scan_start, apply_block-kv}
use partymixrust.Node.Stored.{scan_block-IsStored}
use partymixrust.Publisher.{
  PendingNullifier, Publisher, aggregate_of, aggregate_with, agg_verify_with,
}

module _ (x : Platform) (p : Primitives x) (b : PcdBackend x) (n : NisshacBackend x) where
  -- The node's store has an entry for the key.
  abbrev pub Knows : MixerNode x b → x.PublicKey → Type 0
  Knows node k =
      (e : NullifierKvEntry) × (HashMap.get x.pk_discrete k node.wallet.nullifier_kv ≡ some e)

  aggregate_of-keys :
      (self : Publisher x n) (r : Result NisshacError Signature)
      (agg : AggregateNullifier x.PublicKey)
      → aggregate_of x n self r ≡ ok agg
      → agg.pks ≡ map (λ (q : PendingNullifier x n). q.nullifier_pk) self.pending
  aggregate_of-keys self (err e) agg h = absurd (ground arith)
  aggregate_of-keys self (ok s) agg h = ground arith

  -- For any message, when build_aggregate_nullifier gets an aggregate of the pending nullifiers
  -- over that message, and the check of the aggregate's signature for that message passes,
  -- applying any block with the aggregate to any node, also for that message, leaves in the
  -- node's store an entry for the key of every nullifier that was pending.
  pub aggregate_with-published :
      (self : Publisher x n) (msg : x.Message) (agg : AggregateNullifier x.PublicKey)
      (node : MixerNode x b) (height : ℕ) (before after : List (AggregateNullifier x.PublicKey))
      → aggregate_with x n self (returned msg) ≡ returned (ok agg)
      → agg_verify_with x p agg (returned msg) ≡ returned true
      → All
          (λ (q : PendingNullifier x n).
            Knows (apply_block x p b msg node height (before ++ agg ∷ after)) q.nullifier_pk)
          self.pending
  aggregate_with-published self msg agg node height before after made good =
      let node' = apply_block x p b msg node height (before ++ agg ∷ after) in
      let known : All (Knows node') agg.pks = All-of_Member (Knows node') agg.pks (λ k m.
        rw (apply_block-kv x p b msg node height (before ++ agg ∷ after)) (
          scan_block-IsStored x p k msg before after agg (scan_start x p b node height)
            (ground arith) m)) in
      All-of_map (Knows node') (λ (q : PendingNullifier x n). q.nullifier_pk) self.pending
        (subst (All (Knows node'))
          (aggregate_of-keys self
            (n.aggregate
              (map (λ (q : PendingNullifier x n). (q.signature, q.nullifier_pk, msg)) self.pending))
            agg (ground arith))
          known)
