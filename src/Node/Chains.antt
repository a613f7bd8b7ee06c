-- ===== src/Node/Chains.antt =====
-- What the blocks of a chain change of a node of mixer_node.rs, and what they do not.
use partymixrust.Prelude.{
  ℕ, ◌≡◌, refl, ap, sym, ◌∙◌, arith, List, [], ◌∷◌, Bytes, length, Member, Member-snoc, Bool-cases,
  inl, inr, last?, ok,
}
use partymixrust.ShieldedCsv.Data.{AggregateNullifier, Coin, ToSAccValue}
use partymixrust.ShieldedCsv.Platform.{Platform}
use partymixrust.ShieldedCsv.Primitives.{Primitives, hash}
use partymixrust.ShieldedCsv.Accumulators.{append_set}
use partymixrust.Wallet.{WalletState, is_last, record_nullifier_accum}
use partymixrust.Crypto.Pcd.{PcdBackend}
use partymixrust.Node.Blocks.{Acceptable, accept_payment_iff}
use partymixrust.Node.{MixerNode, apply_block, accept_payment, current_nav}

module _ (x : Platform) where
  record_nullifier_accum-alike :
      (w w' : WalletState x) (v v' : ToSAccValue)
      → v ≡ v'
      → w.nullifier_accum_history ≡ w'.nullifier_accum_history
      → (record_nullifier_accum x w v).nullifier_accum_history
        ≡ (record_nullifier_accum x w' v').nullifier_accum_history
  unfolding record_nullifier_accum
  record_nullifier_accum-alike w w' v v' q e = rw (q, e, record_nullifier_accum) (ground arith)

  record_nullifier_accum-coins :
      (w : WalletState x) (v : ToSAccValue)
      → (record_nullifier_accum x w v).unspent_coins ≡ w.unspent_coins
  unfolding record_nullifier_accum
  record_nullifier_accum-coins w v = ground arith

module _ (x : Platform) (p : Primitives x) (b : PcdBackend x) (msg : x.Message) where
  -- The node after the blocks of a chain, each with its height and its aggregates.
  unfoldable pub apply_blocks :
      MixerNode x b → List (ℕ × List (AggregateNullifier x.PublicKey)) → MixerNode x b
  apply_blocks self [] = self
  apply_blocks self ((height, aggs) ∷ blocks) =
      apply_blocks (apply_block x p b msg self height aggs) blocks

  -- What `accept_payment` reads of a node.
  record Alike (self other : MixerNode x b) : Type 0 where
    nav : current_nav x b self ≡ current_nav x b other
    history : self.wallet.nullifier_accum_history ≡ other.wallet.nullifier_accum_history
    coins : self.wallet.unspent_coins ≡ other.wallet.unspent_coins
    key : self.pcd_vk ≡ other.pcd_vk

  apply_block-Alike :
      (self other : MixerNode x b) (height height' : ℕ)
      (aggs aggs' : List (AggregateNullifier x.PublicKey))
      → Alike self other
      → Alike (apply_block x p b msg self height aggs) (apply_block x p b msg other height' aggs')
  unfolding apply_block current_nav append_set
  apply_block-Alike self other height height' aggs aggs' h =
      let e = ap (hash x) h.nav in
      record {
        nav = e;
        history = record_nullifier_accum-alike x _ _ _ _ e h.history;
        coins =
            record_nullifier_accum-coins x _ _ ∙ h.coins ∙ sym (record_nullifier_accum-coins x _ _);
        key = h.key;
      }

  apply_blocks-Alike :
      (bs cs : List (ℕ × List (AggregateNullifier x.PublicKey))) (self other : MixerNode x b)
      → length bs ≡ length cs
      → Alike self other
      → Alike (apply_blocks self bs) (apply_blocks other cs)
  unfolding apply_blocks
  apply_blocks-Alike [] [] self other n h = h
  apply_blocks-Alike [] (c ∷ cs) self other n h = absurd (omega arith)
  apply_blocks-Alike (d ∷ bs) [] self other n h = absurd (omega arith)
  apply_blocks-Alike (d ∷ bs) (c ∷ cs) self other n h =
      apply_blocks-Alike bs cs _ _ (omega arith) (apply_block-Alike self other d.0 c.0 d.1 c.1 h)

  accept_payment-Alike :
      (self other : MixerNode x b) (c : Coin) (proof acct rand : Bytes)
      → Alike self other
      → accept_payment x b self c proof acct rand ≡ accept_payment x b other c proof acct rand
  unfolding accept_payment
  accept_payment-Alike self other c proof acct rand h = rw (h.history, h.coins, h.key) refl

  -- From one node, two chains of equally many blocks lead to the same accumulator value and to
  -- the same answer of accept_payment for every coin, whatever the aggregates of their blocks
  -- are.
  pub apply_blocks-accept_payment :
      (self : MixerNode x b) (bs cs : List (ℕ × List (AggregateNullifier x.PublicKey))) (c : Coin)
      (proof acct rand : Bytes)
      → length bs ≡ length cs
      → (current_nav x b (apply_blocks self bs) ≡ current_nav x b (apply_blocks self cs))
        × (accept_payment x b (apply_blocks self bs) c proof acct rand
            ≡ accept_payment x b (apply_blocks self cs) c proof acct rand)
  apply_blocks-accept_payment self bs cs c proof acct rand n =
      let alike =
        apply_blocks-Alike bs cs self self n
          (record { nav = refl; history = refl; coins = refl; key = refl }) in
      (
        alike.nav,
        accept_payment-Alike (apply_blocks self bs) (apply_blocks self cs) c proof acct rand alike,
      )

  record_nullifier_accum-Member :
      (w : WalletState x) (v u : ToSAccValue)
      → Member u w.nullifier_accum_history
      → Member u (record_nullifier_accum x w v).nullifier_accum_history
  unfolding record_nullifier_accum
  record_nullifier_accum-Member w v u m =
      elim (Bool-cases (is_last v (last? w.nullifier_accum_history))) [
        | inl known ↦ rw known m
        | inr new ↦ rw new (Member-snoc u v w.nullifier_accum_history m)
      ]

  apply_block-Acceptable :
      (self : MixerNode x b) (height : ℕ) (aggs : List (AggregateNullifier x.PublicKey)) (c : Coin)
      (proof acct rand : Bytes)
      → Acceptable x b self c proof acct rand
      → Acceptable x b (apply_block x p b msg self height aggs) c proof acct rand
  unfolding apply_block
  apply_block-Acceptable self height aggs c proof acct rand a = record {
    addressed = a.addressed;
    unseen = rw (record_nullifier_accum-coins x) a.unseen;
    historic = record_nullifier_accum-Member _ _ _ a.historic;
    proved = a.proved;
  }

  apply_blocks-Acceptable :
      (self : MixerNode x b) (bs : List (ℕ × List (AggregateNullifier x.PublicKey))) (c : Coin)
      (proof acct rand : Bytes)
      → Acceptable x b self c proof acct rand
      → Acceptable x b (apply_blocks self bs) c proof acct rand
  unfolding apply_blocks
  apply_blocks-Acceptable self [] c proof acct rand a = a
  apply_blocks-Acceptable self (d ∷ bs) c proof acct rand a =
      apply_blocks-Acceptable (apply_block x p b msg self d.0 d.1) bs c proof acct rand
        (apply_block-Acceptable self d.0 d.1 c proof acct rand a)

  -- A payment that a node accepts it accepts at the same amount after any chain of blocks.
  pub accept_payment-apply_blocks :
      (self : MixerNode x b) (bs : List (ℕ × List (AggregateNullifier x.PublicKey))) (c : Coin)
      (proof acct rand : Bytes) (n : ℕ)
      → accept_payment x b self c proof acct rand ≡ ok n
      → accept_payment x b (apply_blocks self bs) c proof acct rand ≡ ok n
  accept_payment-apply_blocks self bs c proof acct rand n h =
      let (a, worth) = (accept_payment_iff x b self c proof acct rand n).0 h in
      (accept_payment_iff x b (apply_blocks self bs) c proof acct rand n).1
        (apply_blocks-Acceptable self bs c proof acct rand a, worth)
