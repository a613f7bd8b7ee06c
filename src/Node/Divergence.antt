-- ===== src/Node/Divergence.antt =====
-- What the values in the history of a node of mixer_node.rs are, and two nodes that have seen a
-- different number of blocks.
use partymixrust.Prelude.{
  ℕ, suc, ◌≤◌, ◌≡◌, ◌≢◌, refl, ap, sym, ◌∙◌, Bool-cases, inl, inr, ◌⊎◌, List, arith, Bytes, length,
  ltb, All, All-mono, All-Member, Result-cases, err,
}
use partymixrust.ShieldedCsv.Data.{AggregateNullifier, Coin, ToSAccValue}
use partymixrust.ShieldedCsv.Platform.{Platform}
use partymixrust.ShieldedCsv.Primitives.{Primitives, hash, zero_bytes}
use partymixrust.ShieldedCsv.Accumulators.{append_set}
use partymixrust.Types.{MixerConfig}
use partymixrust.Wallet.History.{record_nullifier_accum-All, trim-All}
use partymixrust.Crypto.Pcd.{PcdBackend}
use partymixrust.Node.{
  MixerNode, payment_rejected, new_node, apply_block, handle_reorg, accept_payment, current_nav,
}
use partymixrust.Node.Blocks.{Acceptable, accept_payment_iff}
use partymixrust.Node.Reachable.{here, block, reorg, Reachable, hashed, blocks_seen, Reachable-last}

module _ (x : Platform) (p : Primitives x) (b : PcdBackend x) where
  pub accept_payment-cases :
      (self : MixerNode x b) (c : Coin) (proof acct rand : Bytes)
      → (accept_payment x b self c proof acct rand ≡ err payment_rejected)
        ⊎ Acceptable x b self c proof acct rand
  unfolding accept_payment
  accept_payment-cases self c proof acct rand =
      elim (Result-cases (accept_payment x b self c proof acct rand)) [
        | inl (e, h) ↦ inl (ground arith)
        | inr (n, h) ↦ inr ((accept_payment_iff x b self c proof acct rand n).0 h).0
      ]

  -- The value after some of the first `n` blocks.
  abbrev pub AfterBlocks : ℕ → ToSAccValue → Type 0
  AfterBlocks n v = (k : ℕ) × (k ≤ n) × (v ≡ hashed x k (zero_bytes 32))

  AfterBlocks-later : (n : ℕ) (v : ToSAccValue) → AfterBlocks n v → AfterBlocks (suc n) v
  AfterBlocks-later n v (k, le, e) = (k, omega arith, e)

  apply_block-AfterBlocks :
      (msg : x.Message) (self : MixerNode x b) (height : ℕ)
      (aggs : List (AggregateNullifier x.PublicKey)) (n : ℕ)
      → current_nav x b self ≡ hashed x n (zero_bytes 32)
      → All (AfterBlocks n) self.wallet.nullifier_accum_history
      → All
          (AfterBlocks (suc n))
          (apply_block x p b msg self height aggs).wallet.nullifier_accum_history
  unfolding apply_block append_set current_nav hashed
  apply_block-AfterBlocks msg self height aggs n nav h =
      record_nullifier_accum-All x (AfterBlocks (suc n)) _ _ (suc n, omega arith, ap (hash x) nav)
        (All-mono (AfterBlocks n) (AfterBlocks (suc n)) self.wallet.nullifier_accum_history
          (AfterBlocks-later n) h)

  handle_reorg-AfterBlocks :
      (self : MixerNode x b) (d n : ℕ)
      → All (AfterBlocks n) self.wallet.nullifier_accum_history
      → All (AfterBlocks n) (handle_reorg x b self d).0.wallet.nullifier_accum_history
  unfolding handle_reorg
  handle_reorg-AfterBlocks self d n h =
      elim (Bool-cases (ltb (length self.wallet.nullifier_accum_history) d)) [
        | inl deep ↦ rw (deep, handle_reorg) h
        | inr known ↦ rw (known, handle_reorg) (trim-All x (AfterBlocks n) self.wallet _ h)
      ]

  pub Reachable-AfterBlocks :
      (config : MixerConfig) {self : MixerNode x b} (r : Reachable x p b config self)
      → All (AfterBlocks (blocks_seen x p b r)) self.wallet.nullifier_accum_history
  unfolding new_node blocks_seen hashed
  Reachable-AfterBlocks config here = ((0, omega arith, refl), tt)
  Reachable-AfterBlocks config (block self msg height aggs r) =
      apply_block-AfterBlocks msg self height aggs (blocks_seen x p b r)
        (Reachable-last x p b config r).1 (Reachable-AfterBlocks config r)
  Reachable-AfterBlocks config (reorg self n r) =
      handle_reorg-AfterBlocks self n (blocks_seen x p b r) (Reachable-AfterBlocks config r)

  -- Of two nodes, each reached from a new node on a new wallet by blocks and reorganisations,
  -- where 32 zero bytes hashed as often as the first has seen blocks are not those bytes hashed
  -- any number of times up to the blocks that the second has seen, the second rejects every coin
  -- that is bound to the first one's accumulator value.
  pub Reachable-seen_fewer :
      (config config' : MixerConfig) {self other : MixerNode x b} (r : Reachable x p b config self)
      (r' : Reachable x p b config' other)
      → ((k : ℕ)
          → k ≤ blocks_seen x p b r'
          → hashed x (blocks_seen x p b r) (zero_bytes 32) ≢ hashed x k (zero_bytes 32))
      → (c : Coin) (proof acct rand : Bytes) → c.nullifier_accum ≡ current_nav x b self
      → accept_payment x b other c proof acct rand ≡ err payment_rejected
  Reachable-seen_fewer config config' {self} {other} r r' apart c proof acct rand bound =
      elim (accept_payment-cases other c proof acct rand) [
        | inl rejected ↦ rejected
        | inr a ↦
            let (k, le, e) =
              All-Member (AfterBlocks (blocks_seen x p b r')) other.wallet.nullifier_accum_history
                c.nullifier_accum (Reachable-AfterBlocks config' r') a.historic in
            absurd (apart k le (sym (Reachable-last x p b config r).1 ∙ sym bound ∙ e))
      ]
