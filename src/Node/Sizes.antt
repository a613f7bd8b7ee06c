-- ===== src/Node/Sizes.antt =====
-- The sizes of the byte arrays that a node of mixer_node.rs keeps: `[u8; 32]` and `[u8; 6]`.
use partymixrust.Prelude.{
  All-append, ℕ, zero, suc, ◌/◌, ◌<◌, ◌≡◌, refl, Bool-cases, inl, inr, List, arith, Bytes, length,
  length-append, ltb, All, All-snoc,
}
use partymixrust.Prelude.Digits.{to_le_bytes, to_be_bytes, length-to_le_bytes, length-to_be_bytes}
use partymixrust.Prelude.HashMap.{values, All-insert}
use partymixrust.ShieldedCsv.Data.{AggregateNullifier, Signature, Commitment}
use partymixrust.ShieldedCsv.Platform.{Platform}
use partymixrust.ShieldedCsv.Primitives.{Primitives, hash, zero_bytes}
use partymixrust.ShieldedCsv.Accumulators.{append_set}
use partymixrust.Types.{MixerConfig}
use partymixrust.Wallet.History.{record_nullifier_accum-All, trim-All}
use partymixrust.Wallet.{NullifierKvEntry}
use partymixrust.Crypto.Pcd.{PcdBackend}
use partymixrust.Node.{
  MixerNode, Scan, location, add_key, new_node, apply_block, handle_reorg, current_nav,
}
use partymixrust.Node.Locations.{location-eq-high}
use partymixrust.Node.Nullifiers.{scan_block-induction}
use partymixrust.Node.Blocks.{remove_sets-value}
use partymixrust.Node.Reachable.{Leads, here, block, reorg, Reachable}
use partymixrust.Node.Permanence.{scan_start, apply_block-kv, handle_reorg-kv}

-- `[u8; n]`
abbrev pub IsArray : ℕ → Bytes → Type 0
IsArray n bs = (length bs ≡ n) × All (λ b. b < 256) bs

to_le_bytes-small : (n v : ℕ) → All (λ b. b < 256) (to_le_bytes n v)
unfolding to_le_bytes
to_le_bytes-small zero v = tt
to_le_bytes-small (suc n) v = (omega arith, to_le_bytes-small n (v / 256))

to_be_bytes-small : (n v : ℕ) → All (λ b. b < 256) (to_be_bytes n v)
unfolding to_be_bytes
to_be_bytes-small zero v = tt
to_be_bytes-small (suc n) v =
    All-snoc (λ b. b < 256) (to_be_bytes n (v / 256)) _ (to_be_bytes-small n (v / 256))
      (omega arith)

zero_bytes-small : (n : ℕ) → All (λ b. b < 256) (zero_bytes n)
zero_bytes-small zero = tt
zero_bytes-small (suc n) = (omega arith, zero_bytes-small n)

hash-IsArray : (x : Platform) (bs : Bytes) → IsArray 32 (hash x bs)
unfolding hash
hash-IsArray x bs =
    let low = to_le_bytes 8 (x.default_hash bs) in
    (
      omega (arith, length-append low (zero_bytes 24), length-to_le_bytes 8 (x.default_hash bs)),
      All-append (λ b. b < 256) low (zero_bytes 24) (to_le_bytes-small 8 (x.default_hash bs))
          (zero_bytes-small 24),
    )

location-IsArray : (v : ℕ) → IsArray 6 (location v)
location-IsArray v =
    rw (location-eq-high v) (length-to_be_bytes 6 (v / 65536), to_be_bytes-small 6 (v / 65536))

module _ (x : Platform) (p : Primitives x) (b : PcdBackend x) where
  abbrev IsPlaced : NullifierKvEntry → Type 0
  IsPlaced e = IsArray 6 e.blockchain_loc

  -- Every array has the size that its type in the source says.
  pub record Sized (self : MixerNode x b) : Type 0 where
    pub nav : IsArray 32 (current_nav x b self)
    pub history : All (IsArray 32) self.wallet.nullifier_accum_history
    pub entries :
        All (λ (e : NullifierKvEntry). IsArray 6 e.blockchain_loc) (values self.wallet.nullifier_kv)

  add_key-IsPlaced :
      (sig : Signature) (fee : Commitment) (i : ℕ) (pk : x.PublicKey) (s : Scan x)
      → All IsPlaced (values s.kv)
      → All IsPlaced (values (add_key x p sig fee i pk s).kv)
  add_key-IsPlaced sig fee i pk s h =
      All-insert x.pk_discrete IsPlaced pk _ s.kv (location-IsArray s.loc) h

  apply_block-Sized :
      (msg : x.Message) (self : MixerNode x b) (height : ℕ)
      (aggs : List (AggregateNullifier x.PublicKey))
      → Sized self
      → Sized (apply_block x p b msg self height aggs)
  unfolding apply_block current_nav append_set
  apply_block-Sized msg self height aggs h = record {
    nav = hash-IsArray x _;
    history = record_nullifier_accum-All x (IsArray 32) _ _ (hash-IsArray x _) h.history;
    entries = rw (apply_block-kv x p b msg self height aggs) (
        scan_block-induction x p (λ s. All IsPlaced (values s.kv))
          (λ sig fee i pk s new. add_key-IsPlaced sig fee i pk s) msg aggs
          (scan_start x p b self height) h.entries);
  }

  handle_reorg-Sized :
      (self : MixerNode x b) (n : ℕ) → Sized self → Sized (handle_reorg x b self n).0
  unfolding handle_reorg current_nav
  handle_reorg-Sized self n h =
      elim (Bool-cases (ltb (length self.wallet.nullifier_accum_history) n)) [
        | inl deep ↦ rw (deep, handle_reorg) h
        | inr known ↦ record {
          nav = rw (known, handle_reorg, remove_sets-value n self.nullifier_accum) h.nav;
          history = rw (known, handle_reorg) (trim-All x (IsArray 32) self.wallet _ h.history);
          entries = rw (handle_reorg-kv x p b self n) h.entries;
        }
      ]

  Leads-Sized : {from self : MixerNode x b} → Leads x p b from self → Sized from → Sized self
  Leads-Sized here h = h
  Leads-Sized (block self msg height aggs r) h =
      apply_block-Sized msg self height aggs (Leads-Sized r h)
  Leads-Sized (reorg self n r) h = handle_reorg-Sized self n (Leads-Sized r h)

  -- In every state that a new node on a new wallet reaches by blocks and reorganisations, the
  -- accumulator value and every value of the history have 32 bytes and every stored location has
  -- 6, each below 256.
  pub Reachable-Sized :
      (config : MixerConfig) (self : MixerNode x b) → Reachable x p b config self → Sized self
  unfolding new_node current_nav
  Reachable-Sized config self r = Leads-Sized r (record {
    nav = (refl, zero_bytes-small 32);
    history = ((refl, zero_bytes-small 32), tt);
    entries = tt;
  })
