-- ===== src/Node/Regular.antt =====
-- The states of a node of mixer_node.rs, and the bytes in them.
use partymixrust.Prelude.{ℕ, ◌≡◌, some, All, last?}
use partymixrust.Prelude.HashMap.{values}
use partymixrust.ShieldedCsv.Platform.{Platform}
use partymixrust.ShieldedCsv.Primitives.{Primitives, zero_bytes}
use partymixrust.Types.{MixerConfig}
use partymixrust.Wallet.{NullifierKvEntry}
use partymixrust.Crypto.Pcd.{PcdBackend}
use partymixrust.Node.{MixerNode, current_nav}
use partymixrust.Node.Reachable.{Reachable, hashed, blocks_seen, Reachable-last}
use partymixrust.Node.Divergence.{AfterBlocks, Reachable-AfterBlocks}
use partymixrust.Node.Sizes.{IsArray, Reachable-Sized}

module _ (x : Platform) (p : Primitives x) (b : PcdBackend x) where
  -- What holds of a node that has seen `n` blocks.
  pub record Regular (n : ℕ) (self : MixerNode x b) : Type 0 where
    pub nav : current_nav x b self ≡ hashed x n (zero_bytes 32)
    pub last : last? self.wallet.nullifier_accum_history ≡ some (current_nav x b self)
    pub history : All (AfterBlocks x p b n) self.wallet.nullifier_accum_history
    pub sizes : All (IsArray 32) self.wallet.nullifier_accum_history
    pub entries :
        All (λ (e : NullifierKvEntry). IsArray 6 e.blockchain_loc) (values self.wallet.nullifier_kv)

  -- In every state that a new node on a new wallet reaches by any sequence of blocks and
  -- reorganisations, the current accumulator value is 32 zero bytes hashed once for each block
  -- that was seen, disconnected ones included, and it is the last value of the wallet's history;
  -- every value of the history is the one after some number of these blocks and has 32 bytes, and
  -- every stored location has 6, each below 256.
  pub Reachable-Regular :
      (config : MixerConfig) {self : MixerNode x b} (r : Reachable x p b config self)
      → Regular (blocks_seen x p b r) self
  Reachable-Regular config {self} r =
      let (last, nav) = Reachable-last x p b config r in
      let sized = Reachable-Sized x p b config self r in
      record {
        nav = nav;
        last = last;
        history = Reachable-AfterBlocks x p b config r;
        sizes = sized.history;
        entries = sized.entries;
      }
