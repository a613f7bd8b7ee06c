-- ===== src/Node/Permanence.antt =====
-- What blocks and reorganisations of mixer_node.rs do to an entry of the nullifier store.
use partymixrust.Prelude.{
  ℕ, ◌≡◌, ◌≢◌, refl, ap, Bool-cases, inl, inr, none, some, List, [], arith, All, All-mono, length,
  ltb,
}
use partymixrust.Prelude.HashMap
use partymixrust.ShieldedCsv.Data.{AggregateNullifier, ToSAccValue, ToSAccSetElement}
use partymixrust.ShieldedCsv.Platform.{Platform}
use partymixrust.ShieldedCsv.Primitives.{Primitives}
use partymixrust.Wallet.{
  WalletState, NullifierKvEntry, record_nullifier_accum, trim_nullifier_history,
}
use partymixrust.Crypto.Pcd.{PcdBackend}
use partymixrust.Node.{MixerNode, Scan, scan_block, first_loc, apply_block, handle_reorg}
use partymixrust.Node.Nullifiers.{scan_block-Extends}
use partymixrust.Node.Reachable.{Leads, here, block, reorg}

module _ (x : Platform) where
  record_nullifier_accum-kv :
      (w : WalletState x) (v : ToSAccValue)
      → (record_nullifier_accum x w v).nullifier_kv ≡ w.nullifier_kv
  unfolding record_nullifier_accum
  record_nullifier_accum-kv w v = ground arith

  trim-kv :
      (w : WalletState x) (n : ℕ) → (trim_nullifier_history x w n).nullifier_kv ≡ w.nullifier_kv
  unfolding trim_nullifier_history
  trim-kv w n = ground arith

module _ (x : Platform) (p : Primitives x) (b : PcdBackend x) where
  -- The scan of a block starts here.
  abbrev pub scan_start : MixerNode x b → ℕ → Scan x
  scan_start self height = record {
    kv = self.wallet.nullifier_kv;
    loc = first_loc height;
    block_nullifiers = [];
  }

  pub apply_block-kv :
      (msg : x.Message) (self : MixerNode x b) (height : ℕ)
      (aggs : List (AggregateNullifier x.PublicKey))
      → (apply_block x p b msg self height aggs).wallet.nullifier_kv
        ≡ (scan_block x p msg aggs (scan_start self height)).kv
  unfolding apply_block
  apply_block-kv msg self height aggs = record_nullifier_accum-kv x _ _

  pub handle_reorg-kv :
      (self : MixerNode x b) (n : ℕ)
      → (handle_reorg x b self n).0.wallet.nullifier_kv ≡ self.wallet.nullifier_kv
  unfolding handle_reorg
  handle_reorg-kv self n = elim (Bool-cases (ltb (length self.wallet.nullifier_accum_history) n)) [
    | inl deep ↦ rw (deep, handle_reorg) refl
    | inr known ↦ rw (known, handle_reorg) (trim-kv x self.wallet _)
  ]

  module _ (k : x.PublicKey) (e : NullifierKvEntry) where
    abbrev Keeps : MixerNode x b → Type 0
    Keeps self = HashMap.get x.pk_discrete k self.wallet.nullifier_kv ≡ some e

    Leads-Keeps : {from self : MixerNode x b} → Leads x p b from self → Keeps from → Keeps self
    Leads-Keeps here h = h
    Leads-Keeps (block self msg height aggs r) h =
        rw (apply_block-kv msg self height aggs) (
          (scan_block-Extends x p msg aggs (scan_start self height) refl).kept k e
            (Leads-Keeps r h))
    Leads-Keeps (reorg self n r) h = rw (handle_reorg-kv self n) (Leads-Keeps r h)

    -- A key that the nullifier store has an entry for keeps that entry through all blocks and
    -- reorganisations, and no block that is scanned then lists it again.
    pub Leads-permanent :
        (from self : MixerNode x b)
        → Leads x p b from self
        → Keeps from
        → Keeps self
          × ((msg : x.Message) (height : ℕ) (aggs : List (AggregateNullifier x.PublicKey))
              → All
                  (λ (n : ToSAccSetElement x.PublicKey). n.0 ≢ k)
                  (scan_block x p msg aggs (scan_start self height)).block_nullifiers)
    Leads-permanent from self r h =
        let kept = Leads-Keeps r h in
        (
          kept,
          λ msg height aggs.
              All-mono
                (λ (n : ToSAccSetElement x.PublicKey).
                  HashMap.get x.pk_discrete n.0 self.wallet.nullifier_kv ≡ none)
                (λ n. n.0 ≢ k) _
                (λ n absent same. cc (
                  kept,
                  ap (λ j. HashMap.get x.pk_discrete j self.wallet.nullifier_kv) same,
                  absent,
                ))
                (scan_block-Extends x p msg aggs (scan_start self height) refl).fresh,
        )
