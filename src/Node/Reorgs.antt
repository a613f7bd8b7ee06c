-- ===== src/Node/Reorgs.antt =====
-- A reorganisation of mixer_node.rs after a chain of blocks: which payments the node still accepts.
use partymixrust.Prelude.{
  ℕ, suc, ◌+◌, ◌-◌, ◌≤◌, ◌<◌, ◌≡◌, ◌≢◌, refl, ap, ap₂, sym, subst, ◌∙◌, Bool-cases, inl, inr, some,
  List, [], ◌∷◌, ◌++◌, arith, Bytes, length, drop, last?, last?-append, ltb, if◌then◌else◌, Member,
  ok, err,
}
use partymixrust.ShieldedCsv.Data.{AggregateNullifier, Coin}
use partymixrust.ShieldedCsv.Platform.{Platform}
use partymixrust.ShieldedCsv.Primitives.{Primitives, hash, zero_bytes}
use partymixrust.Types.{MixerConfig}
use partymixrust.Wallet.{new_wallet, trim_nullifier_history}
use partymixrust.Crypto.Pcd.{PcdBackend}
use partymixrust.Node.{
  MixerNode, payment_rejected, new_node, apply_block, handle_reorg, accept_payment, current_nav,
  contains,
}
use partymixrust.Node.Blocks.{
  handle_reorg-history, apply_block-history, apply_block-nav, contains-of_Member,
}
use partymixrust.Node.Divergence.{accept_payment-cases}
use partymixrust.Node.Values.{
  values_from, values_to, length-values_from, drop-values_from, Member-values_from,
  values_from-Member, Different,
}
use partymixrust.Node.Chains.{apply_blocks}
use partymixrust.Node.Reachable.{hashed}

module _ (x : Platform) (p : Primitives x) (b : PcdBackend x) (msg : x.Message) where
  -- The node has seen `n` blocks, and its history has the values after each number of them.
  record Grown (n : ℕ) (self : MixerNode x b) : Type 0 where
    history : self.wallet.nullifier_accum_history ≡ values_from x 0 (suc n)
    nav : current_nav x b self ≡ hashed x n (zero_bytes 32)

  apply_block-Grown :
      (n : ℕ) (self : MixerNode x b) (height : ℕ) (aggs : List (AggregateNullifier x.PublicKey))
      → hashed x n (zero_bytes 32) ≢ hashed x (suc n) (zero_bytes 32)
      → Grown n self
      → Grown (suc n) (apply_block x p b msg self height aggs)
  unfolding hashed
  apply_block-Grown n self height aggs apart g =
      let v = hashed x n (zero_bytes 32) in
      let last_value : last? self.wallet.nullifier_accum_history ≡ some v =
        ap last? (g.history ∙ values_to x n) ∙ last?-append (values_from x 0 n) v in
      let new : last? self.wallet.nullifier_accum_history ≢ some (hash x (current_nav x b self)) =
        λ e.
          let same : v ≡ hash x (current_nav x b self) = ground arith in
          apart (same ∙ ap (hash x) g.nav) in
      record {
        history =
            apply_block-history x p b msg self height aggs new
            ∙ ap₂ (λ vs u. vs ++ u ∷ []) g.history (ap (hash x) g.nav)
            ∙ sym (values_to x (suc n));
        nav = (apply_block-nav x p b msg self height aggs).0 ∙ ap (hash x) g.nav;
      }

  apply_blocks-Grown :
      (bs : List (ℕ × List (AggregateNullifier x.PublicKey))) (n : ℕ) (self : MixerNode x b)
      → Different x (n + length bs)
      → Grown n self
      → Grown (n + length bs) (apply_blocks x p b msg self bs)
  unfolding apply_blocks
  apply_blocks-Grown [] n self apart g =
      let e : n ≡ n + 0 = omega arith in subst (λ k. Grown k self) e g
  apply_blocks-Grown (d ∷ bs) n self apart g =
      let e : suc n + length bs ≡ n + suc (length bs) = omega arith in
      let self' = apply_block x p b msg self d.0 d.1 in
      subst (λ k. Grown k (apply_blocks x p b msg self' bs)) e
        (apply_blocks-Grown bs (suc n) self' (subst (Different x) (sym e) apart) (
          apply_block-Grown n self d.0 d.1
            (λ q. absurd (omega (arith, apart n (suc n) (omega arith) (omega arith) q))) g))

  handle_reorg_kept :
      (self : MixerNode x b) (d : ℕ)
      → let after = (handle_reorg x b self d).0 in
        (after.wallet.unspent_coins ≡ self.wallet.unspent_coins) × (after.pcd_vk ≡ self.pcd_vk)
  unfolding handle_reorg trim_nullifier_history
  handle_reorg_kept self d = ground arith

  -- The answer of `accept_payment` depends on the history by one test.
  accept_payment_alike :
      (self other : MixerNode x b) (c : Coin) (proof acct rand : Bytes)
      → other.wallet.unspent_coins ≡ self.wallet.unspent_coins
      → other.pcd_vk ≡ self.pcd_vk
      → contains other.wallet.nullifier_accum_history c.nullifier_accum
        ≡ contains self.wallet.nullifier_accum_history c.nullifier_accum
      → accept_payment x b other c proof acct rand ≡ accept_payment x b self c proof acct rand
  unfolding accept_payment
  accept_payment_alike self other c proof acct rand coins key known = rw (coins, key, known) refl

  module _ (config : MixerConfig) (bs : List (ℕ × List (AggregateNullifier x.PublicKey)))
      (apart : Different x (length bs)) where
    -- The new node after the chain.
    abbrev tip : MixerNode x b
    tip = apply_blocks x p b msg (new_node x b config (new_wallet x)) bs

    tip-Grown : Grown (length bs) tip
    unfolding new_node values_from hashed current_nav
    tip-Grown =
        let e : 0 + length bs ≡ length bs = omega arith in
        subst (λ n. Grown n tip) e
          (apply_blocks-Grown bs 0 (new_node x b config (new_wallet x))
            (subst (Different x) (sym e) apart) (record { history = refl; nav = refl }))

    reorg-history :
        (d : ℕ)
        → 0 < d
        → d ≤ length bs
        → let (after, r) = handle_reorg x b tip d in
          (r ≡ ok tt)
          × (after.wallet.nullifier_accum_history ≡ values_from x (suc (length bs) - d) d)
          × (current_nav x b after ≡ current_nav x b tip)
          × (after.wallet.nullifier_kv ≡ tip.wallet.nullifier_kv)
    reorg-history d pos fits =
        let g = tip-Grown in
        let n = length-values_from x (suc (length bs)) 0 in
        let len : length tip.wallet.nullifier_accum_history ≡ suc (length bs) =
          ap length g.history ∙ n in
        let (done, trimmed, nav, kv) = handle_reorg-history x b tip d pos (omega (arith, len)) in
        (
          done,
          trimmed
              ∙ ap₂ (λ k vs. drop (k - d) vs) len g.history
              ∙ drop-values_from x (suc (length bs) - d) (suc (length bs)) 0 (omega arith)
              ∙ ap₂ (values_from x) (omega arith) (omega arith),
          nav,
          kv,
        )

    reorg-kept :
        (d k : ℕ) (c : Coin) (proof acct rand : Bytes)
        → 0 < d
        → d ≤ length bs
        → k ≤ length bs
        → c.nullifier_accum ≡ hashed x k (zero_bytes 32)
        → length bs < k + d
        → accept_payment x b (handle_reorg x b tip d).0 c proof acct rand
          ≡ accept_payment x b tip c proof acct rand
    reorg-kept d k c proof acct rand pos fits le bound late =
        let after = (handle_reorg x b tip d).0 in
        let (coins, key) = handle_reorg_kept tip d in
        let history = (reorg-history d pos fits).1 in
        let m : Member c.nullifier_accum after.wallet.nullifier_accum_history =
          rw (history, bound)
            (Member-values_from x d (suc (length bs) - d) k (omega arith) (omega arith)) in
        let m' : Member c.nullifier_accum tip.wallet.nullifier_accum_history =
          rw (tip-Grown.history, bound)
            (Member-values_from x (suc (length bs)) 0 k (omega arith) (omega arith)) in
        accept_payment_alike tip after c proof acct rand coins key
          (contains-of_Member _ _ m ∙ sym (contains-of_Member _ _ m'))

    reorg-forgotten :
        (d k : ℕ) (c : Coin) (proof acct rand : Bytes)
        → 0 < d
        → d ≤ length bs
        → c.nullifier_accum ≡ hashed x k (zero_bytes 32)
        → k + d ≤ length bs
        → accept_payment x b (handle_reorg x b tip d).0 c proof acct rand ≡ err payment_rejected
    reorg-forgotten d k c proof acct rand pos fits bound early =
        elim (accept_payment-cases x p b (handle_reorg x b tip d).0 c proof acct rand) [
          | inl rejected ↦ rejected
          | inr a ↦
              let m : Member c.nullifier_accum (values_from x (suc (length bs) - d) d) =
                subst (Member c.nullifier_accum) (reorg-history d pos fits).1 a.historic in
              let (j, low, high, e) = values_from-Member x d (suc (length bs) - d) _ m in
              absurd (omega (arith, apart k j (omega arith) (omega arith) (sym bound ∙ e)))
        ]

    -- On a new node with a new wallet that has scanned a chain, where 32 zero bytes hashed
    -- different numbers of times up to the chain's length are different, a reorganisation of at
    -- least one and at most all of the blocks succeeds, leaves the current accumulator value at
    -- that of the chain with the disconnected blocks and the nullifier store as it was, and a
    -- coin that is bound to the value after k of the blocks is from then on rejected, unless the
    -- chain is shorter than k and the disconnected blocks together, where it is answered as
    -- before.
    pub apply_blocks-handle_reorg :
        (d k : ℕ) (c : Coin) (proof acct rand : Bytes)
        → 0 < d
        → d ≤ length bs
        → k ≤ length bs
        → c.nullifier_accum ≡ hashed x k (zero_bytes 32)
        → let (after, r) = handle_reorg x b tip d in
          (r ≡ ok tt)
          × (current_nav x b after ≡ hashed x (length bs) (zero_bytes 32))
          × (after.wallet.nullifier_kv ≡ tip.wallet.nullifier_kv)
          × (accept_payment x b after c proof acct rand ≡ (
              if ltb (length bs) (k + d)
              then accept_payment x b tip c proof acct rand
              else err payment_rejected))
    apply_blocks-handle_reorg d k c proof acct rand pos fits le bound =
        let (done, _, nav, kv) = reorg-history d pos fits in
        (
          done,
          nav ∙ tip-Grown.nav,
          kv,
          elim (Bool-cases (ltb (length bs) (k + d))) [
            | inl late ↦ rw late (reorg-kept d k c proof acct rand pos fits le bound (ground arith))
            | inr early ↦
                rw early (reorg-forgotten d k c proof acct rand pos fits bound (ground arith))
          ],
        )
